-- ===== src/Runtime/Delegate/Tests.antt =====
-- Small runs of navigator/agent_runtime/task_delegate.py.
use navigator_ai.Prelude.{◌≡◌, refl, true, none, some, [], ◌∷◌}
use navigator_ai.Runtime.Lock.{is_blocked, free}
use navigator_ai.Runtime.Delegate.{
  Delegator, TaskEvent, plan_ready, task_completed, normal, high, new_task, push_event, submit_task,
}
use navigator_ai.Runtime.Delegate.Locking.{submit_task_blocks_iff}
use navigator_ai.Runtime.Delegate.Events.{push_all}

abbrev idle : Delegator
idle = record {
  has_execute_fn = true;
  has_on_event_fn = true;
  current = none;
  event_q = [];
  spawned = [];
  notified = [];
}

abbrev busy : Delegator
busy = record idle { current = some (new_task "t1" "open the orders" normal true) }

abbrev planned : TaskEvent
planned = record { task_id = "t1"; status = plan_ready; detail = "" }

abbrev finished_other : TaskEvent
finished_other = record { task_id = "t0"; status = task_completed; detail = "" }

submit_task_blocks_iff_example :
    is_blocked (submit_task "t2" "open invoices" high true (free busy)) ≡ true
submit_task_blocks_iff_example = submit_task_blocks_iff busy "t2" "open invoices" high true

other_task_is_kept :
    (push_all busy (planned ∷ finished_other ∷ [])).current
    ≡ some (record (new_task "t1" "open the orders" normal true) {
      events = planned ∷ [];
      status = plan_ready;
    })
unfolding push_all push_event
other_task_is_kept = refl
