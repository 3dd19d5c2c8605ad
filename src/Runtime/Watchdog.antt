-- ===== src/Runtime/Watchdog.antt =====
-- navigator/agent_runtime/watchdog.py: timeouts, failure counts and loops of the action runner.
-- `now` stands for the clock reading that the code takes.
pub mod Failures
pub mod Loops
mod Tests
use navigator_ai.Prelude.{
  ℕ, suc, ◌+◌, ◌-◌, String, Bool, true, false, ◌||◌, Option, none, some, List, [], ◌∷◌, ◌++◌, ltb,
  leb, length, drop, if◌then◌else◌, ◌==◌, string_eq,
}
use navigator_ai.Runtime.Models.{WatchdogSlice}

abbrev pub max_consecutive_failures : ℕ
max_consecutive_failures = 3

abbrev pub max_loop_reentry : ℕ
max_loop_reentry = 2

-- `xs.count(x)`
unfoldable pub count : List String → String → ℕ
count [] x = 0
count (y ∷ ys) x = if y == x then suc (count ys x) else count ys x

-- `xs[-n:]`
abbrev pub last_n {ℓ} : {A : Type ℓ} → ℕ → List A → List A
last_n n xs = drop (length xs - n) xs

unfoldable pub tick : WatchdogSlice → ℕ → WatchdogSlice
tick w now = record w { last_action_started_at = some now; timed_out = false }

-- A start in the future gives a negative span in the code and 0 here: neither exceeds the limit.
unfoldable pub check_timeout : WatchdogSlice → ℕ → Bool
check_timeout w now = elim w.last_action_started_at [
  | none ↦ false
  | some started ↦ ltb w.action_timeout_ms (now - started)
]

unfoldable pub record_state : WatchdogSlice → String → WatchdogSlice
record_state w fingerprint =
    let visits = count w.visited_states fingerprint in
    record w {
      visited_states = last_n 100 w.visited_states ++ fingerprint ∷ [];
      loop_detected = leb max_loop_reentry visits;
    }

unfoldable pub record_failure : WatchdogSlice → WatchdogSlice
record_failure w = record w { consecutive_failures = w.consecutive_failures + 1 }

unfoldable pub clear_failure : WatchdogSlice → WatchdogSlice
clear_failure w = record w { consecutive_failures = 0; timed_out = false; loop_detected = false }

unfoldable pub is_stuck : WatchdogSlice → Bool
is_stuck w = leb max_consecutive_failures w.consecutive_failures || w.loop_detected || w.timed_out
