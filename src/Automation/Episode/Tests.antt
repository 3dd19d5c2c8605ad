-- ===== src/Automation/Episode/Tests.antt =====
-- One element that fails and is repaired, another that fails for good, with a screenshot.
use navigator_ai.Prelude.{ℕ, ◌≤◌, ◌≡◌, refl, String, Bool, true, false, List, [], ◌∷◌}
use navigator_ai.Automation.Episode.{StepAttempt, by_key, EpisodeStore, finalize}
use navigator_ai.Automation.Episode.Groups.{
  groups_for, find_seq, attempts_for, find_last, last_for, by_key-Partitions,
}
use navigator_ai.Automation.Episode.Counting.{Event, attempted, failed_with_shot}

abbrev tried : String → ℕ → String → Bool → StepAttempt
tried key attempt kind ok = record {
  element_key = key;
  alias = "";
  selector = "";
  tool = "click";
  attempt = attempt;
  tactic = "";
  kind = kind;
  ok = ok;
  detail = "";
  duration_ms = 10;
  url_before = "/home";
  url_after = "/home";
}

abbrev attempts : List StepAttempt
attempts = tried "a" 0 "timeout" false ∷ tried "b" 0 "timeout" false ∷ tried "a" 1 "" true ∷ []

abbrev events : List Event
events =
    attempted (tried "a" 0 "timeout" false)
    ∷ attempted (tried "b" 0 "timeout" false)
    ∷ failed_with_shot 900
    ∷ attempted (tried "a" 1 "" true)
    ∷ failed_with_shot 900
    ∷ []

by_key-Partitions_example :
    (groups_for "a" "click" (by_key attempts) ≤ 1)
    × (find_seq "a" "click" (by_key attempts) ≡ attempts_for "a" "click" attempts)
    × (find_last "a" "click" (by_key attempts) ≡ last_for "a" "click" attempts)
by_key-Partitions_example = by_key-Partitions "a" "click" attempts

abbrev store : EpisodeStore
store = record {
  max_shots = 1;
  attempts = attempts;
  repairs_used = 1;
  shots_written = 0;
  shots = [];
}

one_of_each : ((finalize store).repair_successes ≡ 1) × ((finalize store).unrepaired_failures ≡ 1)
unfolding finalize
one_of_each = (refl, refl)
