-- ===== src/Runtime/Worker/Tests.antt =====
-- Small runs of the worker thread of navigator/agent_runtime/orchestrator.py.
use navigator_ai.Prelude.{◌≤◌, length, ◌≡◌, refl, false, [], ◌∷◌, string_eq}
use navigator_ai.Runtime.Worker.{System, init, Reach, here, returned, releasing}
use navigator_ai.Runtime.Worker.Exclusion.{executing, holders, as_number, one_executor}
use navigator_ai.Runtime.Worker.Races.{
  play, Reach-play, start_first, about_to_release, late_request, request_lost,
}

one_executor_example :
    let s = play init (start_first "orders") in
    (executing s.workers ≤ 1) × (holders s.workers ≡ as_number s.shared.exec_locked)
one_executor_example =
    one_executor {s = play init (start_first "orders")}
      (Reach-play init init (start_first "orders") here)

one_is_executing : executing (play init (start_first "orders")).workers ≡ 1
unfolding play init
one_is_executing = refl

-- The state in which the second goal is lost.
abbrev lost_state : System
lost_state = play (play init (about_to_release "orders")) (late_request "invoices")

two_callers : length lost_state.callers ≡ 2
unfolding play init
two_callers = refl

request_lost_example :
    let s = play init (about_to_release "orders") in
    (Reach init s × (s.workers ≡ releasing ∷ []) × (s.callers ≡ returned ∷ []))
    × Reach init lost_state
    × (lost_state.shared.pending_goal ≡ "invoices")
    × (lost_state.shared.exec_locked ≡ false)
    × (lost_state.ran ≡ "orders" ∷ [])
request_lost_example = request_lost "orders" "invoices" refl refl lost_state here two_callers
