-- ===== src/Agent/Schedule/Order.antt =====
-- The order of the cues of navigator/agent/playback_schedule.py.
use navigator_ai.Prelude.{
  ℕ, zero, suc, ◌+◌, ◌≤◌, ◌≡◌, refl, Bool, true, false, List, [], ◌∷◌, le→leb, arith, if◌then◌else◌,
  max,
}
use navigator_ai.Agent.Schedule.{
  Cue, Step, Recording, next_shift, silent_act, narrated_at, place, insert_cue, sort_cues,
  build_schedule, steps_of, act_times,
}

-- From `t` on, in order of time.
abbrev pub OrderedFrom : ℕ → List Cue → Type 0
OrderedFrom t [] = Unit
OrderedFrom t (c ∷ cs) = (t ≤ c.at_ms) × OrderedFrom c.at_ms cs

OrderedFrom-if :
    (t : ℕ) (test : Bool) (x y : List Cue × ℕ)
    → OrderedFrom t x.0
    → OrderedFrom t y.0
    → OrderedFrom t (if test then x else y).0
OrderedFrom-if t true x y hx hy = hx
OrderedFrom-if t false x y hx hy = hy

pub silent_act-ge : (shift prev : ℕ) (s : Step) → prev ≤ silent_act shift prev s
unfolding silent_act
silent_act-ge shift prev s = ground arith

pub narrated_at-ge : (shift ps pa : ℕ) (s : Step) → pa ≤ narrated_at shift ps pa s
unfolding narrated_at
narrated_at-ge shift ps pa s = omega arith

place-OrderedFrom :
    (shift ps pa total : ℕ) (steps : List Step) → OrderedFrom pa (place shift ps pa total steps).0
unfolding place
place-OrderedFrom shift ps pa total [] = tt
place-OrderedFrom shift ps pa total (s ∷ rest) =
    let at = narrated_at shift ps pa s in
    let end = at + s.spoken_ms in
    let quiet = silent_act shift pa s in
    OrderedFrom-if pa s.narrated _ _
      (
        narrated_at-ge shift ps pa s,
        (
          omega arith,
          place-OrderedFrom (next_shift end shift rest) at at (max (max total end) at) rest,
        ),
      )
      (silent_act-ge shift pa s, place-OrderedFrom shift ps quiet (max total quiet) rest)

sort_cues-OrderedFrom : (t : ℕ) (cs : List Cue) → OrderedFrom t cs → sort_cues cs ≡ cs
unfolding sort_cues insert_cue
sort_cues-OrderedFrom t [] h = refl
sort_cues-OrderedFrom t (c ∷ []) h = refl
sort_cues-OrderedFrom t (c ∷ d ∷ cs) h =
    rw (sort_cues-OrderedFrom c.at_ms (d ∷ cs) h.1, le→leb c.at_ms d.at_ms h.1.0) refl

pub act_times-zero : (clicks timing : List (ℕ × ℕ)) → act_times 0 clicks timing ≡ []
unfolding act_times
act_times-zero [] [] = refl
act_times-zero [] (t ∷ timing) = refl
act_times-zero (c ∷ clicks) timing = refl

-- The cues stand in the order of time as the loop appends them, none before the flow's start, so
-- that the sort at the end leaves them as they are.
pub build_schedule-OrderedFrom :
    (n : ℕ) (r : Recording)
    → let cues = (place 0 0 0 0 (steps_of r 0 (act_times n r.clicks r.timing))).0 in
      OrderedFrom 0 cues × ((build_schedule n r).0 ≡ cues)
unfolding build_schedule steps_of place
build_schedule-OrderedFrom zero r = rw (act_times-zero r.clicks r.timing) (tt, refl)
build_schedule-OrderedFrom (suc n) r =
    let steps = steps_of r 0 (act_times (suc n) r.clicks r.timing) in
    let ordered = place-OrderedFrom 0 0 0 0 steps in
    (ordered, sort_cues-OrderedFrom 0 (place 0 0 0 0 steps).0 ordered)
