-- ===== src/Automation/History.antt =====
-- navigator/automation/explore/history.py: what past exploration runs teach the next one. An
-- episode is the time of its directory and the attempts that `_read_attempts` gives; reading the files and `url_path`
-- are left out (`url_path` is a parameter). Dictionaries are association lists in insertion order.
pub mod Recent
pub mod Failures
pub mod KnownBad
pub mod Proven
mod Tests
use mathlib.Core.List.{reverse}
use navigator_ai.Prelude.{
  ℕ, zero, suc, ◌+◌, String, Bool, true, false, Option, none, some, List, [], ◌∷◌, ◌++◌, map, not,
  ◌&&◌, ltb, leb, ◌==◌, string_eq, contains, length, take, if◌then◌else◌,
}
use navigator_ai.Automation.Episode.{
  StepAttempt, Group, seq_of, any_repair, append_attempts, by_key,
}

abbrev pub max_episodes : ℕ
max_episodes = 5

abbrev pub max_entries : ℕ
max_entries = 200

abbrev known_tactics : List String
known_tactics =
    "reperceive_refind" ∷ "alternate_selector" ∷ "scroll_into_view" ∷ "dismiss_overlay" ∷ "retry"
    ∷ "wait_settle" ∷ "relax_verify" ∷ "vlm_locate" ∷ []

pub record LoadedEpisode : Type 0 where
  pub mtime : ℕ
  pub attempts : List StepAttempt

-- `jobs.sort(key=mtime, reverse=True)`, which keeps equal jobs in their order.
unfoldable pub insert_job : LoadedEpisode → List LoadedEpisode → List LoadedEpisode
insert_job e [] = e ∷ []
insert_job e (f ∷ fs) =
    let rest = insert_job e fs in if leb f.mtime e.mtime then e ∷ f ∷ fs else f ∷ rest

unfoldable pub sort_jobs : List LoadedEpisode → List LoadedEpisode
unfolding insert_job
sort_jobs [] = []
sort_jobs (e ∷ es) = insert_job e (sort_jobs es)

unfoldable pub load_recent : ℕ → List LoadedEpisode → List LoadedEpisode
unfolding sort_jobs
load_recent limit jobs = take limit (sort_jobs jobs)

-- `x or y`
abbrev pub or_text : String → String → String
or_text x y = if x == "" then y else x

-- `next((s.kind for s in seq if s.kind), otherwise)`
unfoldable first_kind : String → List StepAttempt → String
first_kind otherwise [] = otherwise
first_kind otherwise (s ∷ ss) =
    let rest = first_kind otherwise ss in if s.kind == "" then rest else s.kind

unfoldable pub unrepaired_of : List Group → List (String × String)
unfolding seq_of first_kind
unrepaired_of [] = []
unrepaired_of (g ∷ gs) =
    let out = unrepaired_of gs in
    if g.element_key == ""
    then out
    else if g.last.ok
    then out
    else (g.element_key, or_text (first_kind g.last.kind (seq_of g)) "unknown") ∷ out

unfoldable pub unrepaired_in : List StepAttempt → List (String × String)
unfolding append_attempts unrepaired_of
unrepaired_in xs = unrepaired_of (by_key xs)

-- element_key → (kind, unrepaired_failure_count)
abbrev pub BadKeys : Type 0
BadKeys = List (String × (String × ℕ))

abbrev pub get_bad : String → BadKeys → Option (String × ℕ)
get_bad key [] = none
get_bad key ((k, v) ∷ t) = if k == key then some v else get_bad key t

-- The assignment `tallies[key] = v`.
unfoldable pub set_bad : String → String × ℕ → BadKeys → BadKeys
set_bad key v [] = (key, v) ∷ []
set_bad key v ((k, w) ∷ t) =
    let rest = set_bad key v t in if k == key then (k, v) ∷ t else (k, w) ∷ rest

abbrev pub is_some : Option (String × ℕ) → Bool
is_some none = false
is_some (some v) = true

-- One pass of the inner loop: it returns the table, or goes on with the table and `entries`.
pub data Pass : Type 0 where
  returned : BadKeys → Pass
  going : ℕ → BadKeys → Pass

unfoldable pub enter : String → String → ℕ → BadKeys → Option (String × ℕ) → Pass
unfolding set_bad
enter key kind entries tallies none = going (suc entries) (set_bad key (kind, 1) tallies)
enter key kind entries tallies (some (kind', n)) =
    going entries (set_bad key (or_text kind kind', n + 1) tallies)

unfoldable pub tally : ℕ → String × String → ℕ → BadKeys → Pass
unfolding enter
tally cap (key, kind) entries tallies =
    if leb cap entries && not (is_some (get_bad key tallies))
    then returned tallies
    else enter key kind entries tallies (get_bad key tallies)

unfoldable pub tally_all : ℕ → List (String × String) → Pass → Pass
unfolding tally
tally_all cap xs (returned t) = returned t
tally_all cap [] (going n t) = going n t
tally_all cap (x ∷ xs) (going n t) = tally_all cap xs (tally cap x n t)

unfoldable pub tally_episodes : ℕ → List LoadedEpisode → Pass → Pass
unfolding unrepaired_in tally_all
tally_episodes cap [] p = p
tally_episodes cap (ep ∷ eps) p =
    tally_episodes cap eps (tally_all cap (unrepaired_in ep.attempts) p)

abbrev pub table_of : Pass → BadKeys
table_of (returned t) = t
table_of (going n t) = t

unfoldable pub known_bad : ℕ → ℕ → List LoadedEpisode → BadKeys
unfolding load_recent tally_episodes
known_bad limit cap jobs = table_of (tally_episodes cap (load_recent limit jobs) (going 0 []))

-- (path, kind) → tactic
abbrev pub Tactics : Type 0
Tactics = List ((String × String) × String)

abbrev pub same_place : String × String → String × String → Bool
same_place (p, k) (q, l) = (p == q) && (k == l)

abbrev pub get_tactic : String × String → Tactics → Option String
get_tactic key [] = none
get_tactic key ((k, v) ∷ t) = if same_place k key then some v else get_tactic key t

unfoldable pub set_tactic : String × String → String → Tactics → Tactics
set_tactic key v [] = (key, v) ∷ []
set_tactic key v ((k, w) ∷ t) =
    let rest = set_tactic key v t in if same_place k key then (k, v) ∷ t else (k, w) ∷ rest

abbrev pub has_tactic : Option String → Bool
has_tactic none = false
has_tactic (some v) = true

-- `tactic in KNOWN_TACTICS`
unfoldable pub is_known : String → Bool
is_known tactic = contains known_tactics tactic

unfoldable pub note_tactic : ℕ → (String × String) × String → Tactics → Tactics
unfolding set_tactic
note_tactic cap (key, tactic) out =
    if not (is_known tactic)
    then out
    else if not (has_tactic (get_tactic key out)) && leb cap (length out)
    then out
    else set_tactic key tactic out

unfoldable pub note_tactics : ℕ → List ((String × String) × String) → Tactics → Tactics
unfolding note_tactic
note_tactics cap [] out = out
note_tactics cap (r ∷ rs) out = note_tactics cap rs (note_tactic cap r out)

-- `next((s for s in seq if s.attempt == 0), seq[0])`
unfoldable original_in : StepAttempt → List StepAttempt → StepAttempt
original_in first [] = first
original_in first (s ∷ ss) = let rest = original_in first ss in if leb s.attempt 0 then s else rest

abbrev head_or : StepAttempt → List StepAttempt → StepAttempt
head_or a [] = a
head_or a (s ∷ ss) = s

-- `next((s for s in seq if s.ok and s.attempt > 0), None)`
unfoldable winner_in : List StepAttempt → Option StepAttempt
winner_in [] = none
winner_in (s ∷ ss) = let rest = winner_in ss in if s.ok && ltb 0 s.attempt then some s else rest

module _ (url_path : String → String) where
  -- What one repaired sequence adds.
  unfoldable repair_of : Group → Option StepAttempt → List ((String × String) × String)
  unfolding original_in seq_of
  repair_of g none = []
  repair_of g (some winner) =
      let original = original_in (head_or g.last g.earlier) (seq_of g) in
      if winner.tactic == ""
      then []
      else ((url_path original.url_before, or_text original.kind "unknown"), winner.tactic) ∷ []

  unfoldable repairs_of : List Group → List ((String × String) × String)
  unfolding repair_of winner_in any_repair
  repairs_of [] = []
  repairs_of (g ∷ gs) =
      let out = repairs_of gs in
      if not (g.last.ok && any_repair (seq_of g))
      then out
      else repair_of g (winner_in (reverse (seq_of g))) ++ out

  unfoldable pub successful_repairs_in : List StepAttempt → List ((String × String) × String)
  unfolding append_attempts repairs_of
  successful_repairs_in xs = repairs_of (by_key xs)

  unfoldable pub note_episodes : ℕ → List LoadedEpisode → Tactics → Tactics
  unfolding successful_repairs_in note_tactics
  note_episodes cap [] out = out
  note_episodes cap (ep ∷ eps) out =
      note_episodes cap eps (note_tactics cap (successful_repairs_in ep.attempts) out)

  unfoldable pub proven_tactics : ℕ → ℕ → List LoadedEpisode → Tactics
  unfolding load_recent note_episodes
  proven_tactics limit cap jobs = note_episodes cap (reverse (load_recent limit jobs)) []
