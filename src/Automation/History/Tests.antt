-- ===== src/Automation/History/Tests.antt =====
-- Two past runs: a menu that fails in both, and a dialog that each run repaired in its own way.
use navigator_ai.Prelude.{ℕ, ◌≡◌, refl, String, Bool, true, false, List, [], ◌∷◌, string_eq}
use navigator_ai.Automation.Episode.{StepAttempt}
use navigator_ai.Automation.History.{
  LoadedEpisode, known_bad, proven_tactics, is_known, max_episodes, max_entries,
}
use navigator_ai.Automation.History.KnownBad.{count_of}

abbrev tried : String → ℕ → String → String → Bool → StepAttempt
tried key attempt tactic kind ok = record {
  element_key = key;
  alias = "";
  selector = "";
  tool = "click";
  attempt = attempt;
  tactic = tactic;
  kind = kind;
  ok = ok;
  detail = "";
  duration_ms = 10;
  url_before = "/home";
  url_after = "/home";
}

abbrev monday : LoadedEpisode
monday = record {
  mtime = 1;
  attempts =
      tried "menu" 0 "" "timeout" false
      ∷ tried "dialog" 0 "" "overlay" false
      ∷ tried "menu" 1 "retry" "" false
      ∷ tried "dialog" 1 "dismiss_overlay" "" true
      ∷ [];
}

abbrev tuesday : LoadedEpisode
tuesday = record {
  mtime = 2;
  attempts =
      tried "menu" 0 "" "timeout" false
      ∷ tried "dialog" 0 "" "overlay" false
      ∷ tried "dialog" 1 "retry" "" true
      ∷ [];
}

abbrev jobs : List LoadedEpisode
jobs = monday ∷ tuesday ∷ []

abbrev same_path : String → String
same_path url = url

menu_failed_twice : count_of "menu" (known_bad max_episodes max_entries jobs) ≡ 2
unfolding known_bad
menu_failed_twice = refl

-- With room for one entry, the repair of the newer run is not recorded when an older run had another.
older_repair_kept :
    proven_tactics same_path 5 1 (
      record { mtime = 1; attempts = tried "a" 0 "" "x" false ∷ tried "a" 1 "retry" "" true ∷ [] }
      ∷ record { mtime = 2; attempts = tried "b" 0 "" "y" false ∷ tried "b" 1 "retry" "" true ∷ [] }
      ∷ [])
    ≡ (("/home", "x"), "retry") ∷ []
unfolding proven_tactics is_known
older_repair_kept = refl
