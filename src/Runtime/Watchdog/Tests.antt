-- ===== src/Runtime/Watchdog/Tests.antt =====
-- Small runs of navigator/agent_runtime/watchdog.py.
use navigator_ai.Prelude.{◌≡◌, refl, true, false, [], ◌∷◌, arith}
use navigator_ai.Runtime.Models.{fresh_watchdog}
use navigator_ai.Runtime.Watchdog.{count, record_state, check_timeout, tick}
use navigator_ai.Runtime.Watchdog.Loops.{visit_all, loop_detected_iff_third_visit}

-- The timeout itself is found.
late_action : check_timeout (tick fresh_watchdog 1000) 31001 ≡ true
unfolding check_timeout tick
late_action = refl

loop_detected_iff_third_visit_example :
    (visit_all fresh_watchdog ("a" ∷ "b" ∷ "a" ∷ "a" ∷ [])).loop_detected ≡ true
unfolding count
loop_detected_iff_third_visit_example =
    loop_detected_iff_third_visit ("a" ∷ "b" ∷ "a" ∷ []) "a" (omega arith)

second_visit : (visit_all fresh_watchdog ("a" ∷ "b" ∷ "a" ∷ [])).loop_detected ≡ false
unfolding visit_all record_state count
second_visit = refl
