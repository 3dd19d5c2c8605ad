-- ===== src/Runtime/Watchdog/Failures.antt =====
-- The failure count of navigator/agent_runtime/watchdog.py and when it stops a run.
use navigator_ai.Prelude.{ℕ, zero, suc, ◌+◌, ◌≡◌, refl, String, false, List, [], ◌∷◌, leb, arith}
use navigator_ai.Runtime.Models.{WatchdogSlice}
use navigator_ai.Runtime.Watchdog.{tick, record_state, record_failure, clear_failure, is_stuck}

-- One call on the watchdog, as the executors make them.
pub data Op : Type 0 where
  tick_at : ℕ → Op
  visit : String → Op
  failure : Op
  clear : Op

unfoldable pub apply : WatchdogSlice → Op → WatchdogSlice
apply w (tick_at now) = tick w now
apply w (visit fp) = record_state w fp
apply w failure = record_failure w
apply w clear = clear_failure w

unfoldable pub run : WatchdogSlice → List Op → WatchdogSlice
unfolding apply
run w [] = w
run w (op ∷ ops) = run (apply w op) ops

apply-timed_out :
    (w : WatchdogSlice) (op : Op) → w.timed_out ≡ false → (apply w op).timed_out ≡ false
unfolding apply tick record_state record_failure clear_failure
apply-timed_out w (tick_at now) h = refl
apply-timed_out w (visit fp) h = h
apply-timed_out w failure h = h
apply-timed_out w clear h = refl

-- No sequence of watchdog calls ever sets the `timed_out` flag: a slice in which it is off keeps
-- it off, although an action that runs too long is what the flag stands for.
run-timed_out :
    (w : WatchdogSlice) (ops : List Op) → w.timed_out ≡ false → (run w ops).timed_out ≡ false
unfolding run
run-timed_out w [] h = h
run-timed_out w (op ∷ ops) h = run-timed_out (apply w op) ops (apply-timed_out w op h)

pub failures : ℕ → WatchdogSlice → WatchdogSlice
failures zero w = w
failures (suc n) w = failures n (record_failure w)

failures-parts :
    (n : ℕ) (w : WatchdogSlice)
    → ((failures n w).consecutive_failures ≡ w.consecutive_failures + n)
      × ((failures n w).loop_detected ≡ w.loop_detected)
      × ((failures n w).timed_out ≡ w.timed_out)
unfolding failures record_failure
failures-parts zero w = (omega arith, refl, refl)
failures-parts (suc n) w = ground (arith, failures-parts n (record_failure w))

-- After a clear, `n` failures in a row make the watchdog report that it is stuck exactly when
-- there are at least three of them, whatever it had recorded before the clear.
is_stuck-failures-clear_failure :
    (n : ℕ) (w : WatchdogSlice) → is_stuck (failures n (clear_failure w)) ≡ leb 3 n
unfolding is_stuck clear_failure
is_stuck-failures-clear_failure n w = ground (arith, failures-parts n (clear_failure w))
