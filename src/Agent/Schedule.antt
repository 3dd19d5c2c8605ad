-- ===== src/Agent/Schedule.antt =====
-- navigator/agent/playback_schedule.py: the cues of a recorded flow on one clock. Times are
-- milliseconds that are not negative. Dictionaries are association lists; the arrays that the
-- code indexes by step are one list of steps, so "the next narrated step" is the first such step
-- of the rest.
pub mod Order
pub mod Speech
pub mod Steps
mod Tests
use navigator_ai.Prelude.{
  ℕ, zero, suc, ◌+◌, ◌-◌, ◌*◌, max, Bool, true, false, not, ◌&&◌, Option, none, some, List, [], ◌∷◌,
  ◌++◌, ltb, leb, ◌==◌, nat_eq, get_elem?, Text, is_space, strip, if◌then◌else◌,
}

abbrev pub default_step_ms : ℕ
default_step_ms = 3000

abbrev pub min_act_gap_ms : ℕ
min_act_gap_ms = 2500

abbrev pub estimate_ms_per_word : ℕ
estimate_ms_per_word = 400

abbrev pub estimate_floor_ms : ℕ
estimate_floor_ms = 600

pub data CueKind : Type 0 where
  speak act : CueKind

pub record Cue : Type 0 where
  pub idx : ℕ
  pub kind : CueKind
  pub at_ms : ℕ
  pub text : Text

-- `d.get(i)`
unfoldable pub lookup {ℓ} : {A : Type ℓ} → ℕ → List (ℕ × A) → Option A
lookup i [] = none
lookup i (e ∷ d) = if e.0 == i then some e.1 else lookup i d

abbrev pub or_else {ℓ} : {A : Type ℓ} → Option A → A → A
or_else none a = a
or_else (some b) a = b

-- `len(text.split())`; the flag tells whether the text goes on inside a word.
unfoldable pub words : Bool → Text → ℕ
words inside [] = 0
words inside (c ∷ t) =
    let after_space = words false t in
    let after_letter = words true t in
    if is_space c then after_space else if inside then after_letter else suc after_letter

unfoldable pub estimate_spoken_ms : Text → ℕ
unfolding words
estimate_spoken_ms text =
    let n = words false text in
    if n == 0 then 0 else max estimate_floor_ms (n * estimate_ms_per_word)

-- A recorded line, from its start to its end.
pub record Window : Type 0 where
  pub start : ℕ
  pub stop : ℕ

-- The arguments of `build_schedule`.
pub record Recording : Type 0 where
  pub clicks : List (ℕ × ℕ)
  pub speech : List (ℕ × Window)
  pub lines : List (Option Text)
  pub timing : List (ℕ × ℕ)
  pub tts_ms : Text → Option ℕ

-- The three loops of `_act_times`, with the steps that are left and the next one's number.
by_clicks : ℕ → ℕ → ℕ → List (ℕ × ℕ) → List ℕ
unfolding lookup
by_clicks zero i prev clicks = []
by_clicks (suc left) i prev clicks =
    let at = or_else (lookup i clicks) (prev + default_step_ms) in
    at ∷ by_clicks left (i + 1) at clicks

by_timing : ℕ → ℕ → ℕ → List (ℕ × ℕ) → List ℕ
unfolding lookup
by_timing zero i cumulative timing = []
by_timing (suc left) i cumulative timing =
    cumulative ∷ by_timing left (i + 1) (cumulative + or_else (lookup i timing) 0) timing

evenly : ℕ → ℕ → List ℕ
evenly zero i = []
evenly (suc left) i = i * default_step_ms ∷ evenly left (i + 1)

unfoldable pub act_times : ℕ → List (ℕ × ℕ) → List (ℕ × ℕ) → List ℕ
unfolding by_clicks by_timing evenly
act_times n (c ∷ clicks) timing = by_clicks n 0 0 (c ∷ clicks)
act_times n [] (t ∷ timing) = by_timing n 0 0 (t ∷ timing)
act_times n [] [] = evenly n 0

unfoldable pub line : List (Option Text) → ℕ → Text
line lines i = or_else (or_else (get_elem? lines i) none) []

abbrev pub is_blank : Text → Bool
is_blank [] = true
is_blank (c ∷ t) = false

recorded_ms : Recording → ℕ → ℕ
unfolding lookup
recorded_ms r i = elim (lookup i r.speech) [
  | some window ↦ window.stop - window.start
  | none ↦ or_else (lookup i r.timing) 0
]

unfoldable pub duration : Recording → ℕ → ℕ
unfolding line recorded_ms estimate_spoken_ms
duration r i =
    let l = line r.lines i in
    let guess = max (recorded_ms r i) (estimate_spoken_ms l) in
    elim (r.tts_ms l) [ none ↦ guess | some spoken ↦ if ltb 0 spoken then spoken else guess ]

-- What the loop reads of one step.
pub record Step : Type 0 where
  pub idx : ℕ
  pub act_ms : ℕ
  pub speak_ms : ℕ
  pub narrated : Bool
  pub text : Text
  pub spoken_ms : ℕ

unfoldable pub step_of : Recording → ℕ → ℕ → Step
unfolding line lookup duration
step_of r i act_ms = record {
  idx = i;
  act_ms = act_ms;
  speak_ms = elim (lookup i r.speech) [ some window ↦ window.start | none ↦ act_ms ];
  narrated = not (is_blank (strip (line r.lines i)));
  text = line r.lines i;
  spoken_ms = duration r i;
}

unfoldable pub steps_of : Recording → ℕ → List ℕ → List Step
unfolding step_of
steps_of r i [] = []
steps_of r i (a ∷ acts) = step_of r i a ∷ steps_of r (i + 1) acts

unfoldable pub next_narrated : List Step → Option Step
next_narrated [] = none
next_narrated (s ∷ rest) = let later = next_narrated rest in if s.narrated then some s else later

-- The overflow of a line that ends at `end` into the next one moves everything after it.
unfoldable pub next_shift : ℕ → ℕ → List Step → ℕ
unfolding next_narrated
next_shift end shift rest = elim (next_narrated rest) [
  | none ↦ shift
  | some following ↦ shift + (end - (following.speak_ms + shift))
]

unfoldable pub silent_act : ℕ → ℕ → Step → ℕ
silent_act shift prev_act s =
    let at_act = max (s.act_ms + shift) prev_act in
    if ltb 0 s.idx && ltb (at_act - prev_act) min_act_gap_ms
    then prev_act + min_act_gap_ms
    else at_act

unfoldable pub narrated_at : ℕ → ℕ → ℕ → Step → ℕ
narrated_at shift prev_speak prev_act s = max (max (s.speak_ms + shift) prev_speak) prev_act

abbrev pub act_cue : Step → ℕ → Cue
act_cue s at = record { idx = s.idx; kind = act; at_ms = at; text = [] }

abbrev pub speak_cue : Step → ℕ → Cue
speak_cue s at = record { idx = s.idx; kind = speak; at_ms = at; text = s.text }

-- The loop over the steps: the cues that it appends, and `total` at its end.
unfoldable pub place : ℕ → ℕ → ℕ → ℕ → List Step → List Cue × ℕ
unfolding next_shift silent_act narrated_at
place shift prev_speak prev_act total [] = ([], total)
place shift prev_speak prev_act total (s ∷ rest) =
    let at = narrated_at shift prev_speak prev_act s in
    let end = at + s.spoken_ms in
    let (told, told_total) =
      place (next_shift end shift rest) at at (max (max total end) at) rest in
    let quiet = silent_act shift prev_act s in
    let (shown, shown_total) = place shift prev_speak quiet (max total quiet) rest in
    if s.narrated
    then (speak_cue s at ∷ act_cue s at ∷ told, told_total)
    else (act_cue s quiet ∷ shown, shown_total)

-- `cues.sort(key=lambda cue: cue.at_ms)`, which is stable.
unfoldable pub insert_cue : Cue → List Cue → List Cue
insert_cue c [] = c ∷ []
insert_cue c (d ∷ ds) =
    let rest = insert_cue c ds in if leb c.at_ms d.at_ms then c ∷ d ∷ ds else d ∷ rest

unfoldable pub sort_cues : List Cue → List Cue
unfolding insert_cue
sort_cues [] = []
sort_cues (c ∷ cs) = insert_cue c (sort_cues cs)

unfoldable pub build_schedule : ℕ → Recording → List Cue × ℕ
unfolding act_times steps_of place sort_cues
build_schedule zero r = ([], 0)
build_schedule (suc n) r =
    let (cues, total) = place 0 0 0 0 (steps_of r 0 (act_times (suc n) r.clicks r.timing)) in
    (sort_cues cues, total)
