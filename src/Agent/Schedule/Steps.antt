-- ===== src/Agent/Schedule/Steps.antt =====
-- Which steps the cues of navigator/agent/playback_schedule.py perform, and how far apart.
use navigator_ai.Prelude.{
  ℕ, zero, suc, ◌+◌, ◌≡◌, refl, ap, ◌∙◌, List, [], ◌∷◌, if◌then◌else◌, Bool-cases, inl, inr, max,
  length, nat_eq,
}
use navigator_ai.Agent.Schedule.{
  Cue, Step, Recording, next_shift, silent_act, narrated_at, place, build_schedule, steps_of,
  step_of, act_times, by_clicks, by_timing, evenly,
}
use navigator_ai.Agent.Schedule.Order.{build_schedule-OrderedFrom}
use navigator_ai.Agent.Schedule.Speech.{is_speak}

-- The steps whose action is cued, in the order of the cues.
abbrev pub acted : List Cue → List ℕ
acted [] = []
acted (c ∷ cs) = if is_speak c.kind then acted cs else c.idx ∷ acted cs

-- `range(i, i + n)`
abbrev pub range : ℕ → ℕ → List ℕ
range i zero = []
range i (suc n) = i ∷ range (i + 1) n

abbrev indices : List Step → List ℕ
indices [] = []
indices (s ∷ steps) = s.idx ∷ indices steps

acted-place :
    (shift ps pa total : ℕ) (steps : List Step)
    → acted (place shift ps pa total steps).0 ≡ indices steps
unfolding place
acted-place shift ps pa total [] = refl
acted-place shift ps pa total (s ∷ rest) = elim (Bool-cases s.narrated) [
  | inl n ↦
      let at = narrated_at shift ps pa s in
      let end = at + s.spoken_ms in
      rw n (
        ap (λ (is : List ℕ). s.idx ∷ is)
          (acted-place (next_shift end shift rest) at at (max (max total end) at) rest))
  | inr n ↦
      let quiet = silent_act shift pa s in
      rw n (ap (λ (is : List ℕ). s.idx ∷ is) (acted-place shift ps quiet (max total quiet) rest))
]

indices-steps_of :
    (r : Recording) (i : ℕ) (acts : List ℕ) → indices (steps_of r i acts) ≡ range i (length acts)
unfolding steps_of step_of
indices-steps_of r i [] = refl
indices-steps_of r i (a ∷ acts) = ap (λ (is : List ℕ). i ∷ is) (indices-steps_of r (i + 1) acts)

length-by_clicks : (n i prev : ℕ) (clicks : List (ℕ × ℕ)) → length (by_clicks n i prev clicks) ≡ n
unfolding by_clicks
length-by_clicks zero i prev clicks = refl
length-by_clicks (suc n) i prev clicks = ap suc (length-by_clicks n (i + 1) _ clicks)

length-by_timing :
    (n i cumulative : ℕ) (timing : List (ℕ × ℕ)) → length (by_timing n i cumulative timing) ≡ n
unfolding by_timing
length-by_timing zero i cumulative timing = refl
length-by_timing (suc n) i cumulative timing = ap suc (length-by_timing n (i + 1) _ timing)

length-evenly : (n i : ℕ) → length (evenly n i) ≡ n
unfolding evenly
length-evenly zero i = refl
length-evenly (suc n) i = ap suc (length-evenly n (i + 1))

length-act_times : (n : ℕ) (clicks timing : List (ℕ × ℕ)) → length (act_times n clicks timing) ≡ n
unfolding act_times
length-act_times n [] [] = length-evenly n 0
length-act_times n [] (t ∷ timing) = length-by_timing n 0 0 (t ∷ timing)
length-act_times n (c ∷ clicks) timing = length-by_clicks n 0 0 (c ∷ clicks)

-- Each of the `n` steps of a recording is performed exactly once, and in the order of their
-- numbers.
acted-build_schedule : (n : ℕ) (r : Recording) → acted (build_schedule n r).0 ≡ range 0 n
unfolding build_schedule
acted-build_schedule zero r = refl
acted-build_schedule (suc n) r =
    let acts = act_times (suc n) r.clicks r.timing in
    ap acted (build_schedule-OrderedFrom (suc n) r).1
    ∙ (acted-place 0 0 0 0 (steps_of r 0 acts)
        ∙ (indices-steps_of r 0 acts ∙ ap (range 0) (length-act_times (suc n) r.clicks r.timing)))
