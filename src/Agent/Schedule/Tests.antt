-- ===== src/Agent/Schedule/Tests.antt =====
-- A recorded flow of three steps: two narrated ones, the first of which runs over, and a click
-- right after the second.
use navigator_ai.Prelude.{◌≡◌, refl, none, some, [], ◌∷◌, codes, strip}
use navigator_ai.Agent.Schedule.{Recording, build_schedule}

abbrev flow : Recording
flow = record {
  clicks = (0, 1000) ∷ (1, 2000) ∷ (2, 2100) ∷ [];
  speech =
      (0, record { start = 500; stop = 1500 }) ∷ (1, record { start = 2000; stop = 2500 }) ∷ [];
  lines = some (codes "One two three four five.") ∷ some (codes "Six.") ∷ none ∷ [];
  timing = [];
  tts_ms = λ t. none;
}

total_is_late : (build_schedule 3 flow).1 ≡ 5000
unfolding build_schedule strip
total_is_late = refl
