-- ===== src/Runtime/Delegate/Locking.antt =====
-- Which calls of navigator/agent_runtime/task_delegate.py return.
use navigator_ai.Prelude.{
  String, Bool, true, false, not, ◌&&◌, ◌≡◌, some, [], ◌∷◌, ◌++◌, arith, if◌then◌else◌,
}
use navigator_ai.Runtime.Lock.{done, is_blocked, state_of, free}
use navigator_ai.Runtime.Delegate.{
  Delegator, TaskEvent, InterruptionPolicy, queue, Urgency, is_running, new_task, submit_task,
  resolve_interruption, push_event, current_task,
}

abbrev is_queue : InterruptionPolicy → Bool
is_queue queue = true
is_queue _ = false

-- With the lock free, `submit_task` blocks exactly when there is a current task that has neither
-- completed nor failed: it then waits for the lock that it holds itself.
pub submit_task_blocks_iff :
    (d : Delegator) (task_id goal : String) (urgency : Urgency) (allow : Bool)
    → is_blocked (submit_task task_id goal urgency allow (free d)) ≡ is_running d.current
unfolding submit_task
submit_task_blocks_iff d task_id goal urgency allow = ground arith

-- With the lock free, `resolve_interruption` returns only for the policy `queue` and a task that
-- is still running; on every other path it waits for the lock that it holds itself.
resolve_interruption_blocks_iff :
    (d : Delegator) (task_id goal : String) (policy : InterruptionPolicy) (allow : Bool)
    → is_blocked (resolve_interruption task_id goal policy allow (free d))
      ≡ not (is_running d.current && is_queue policy)
unfolding resolve_interruption
resolve_interruption_blocks_iff d task_id goal policy allow = ground arith

-- Once `submit_task` has blocked on a task that is still running, every later call on the
-- delegator that takes the lock blocks as well: `push_event`, `current_task`, `submit_task` and
-- `resolve_interruption`.
blocked_for_good :
    (d : Delegator) (task_id goal : String) (urgency : Urgency) (allow : Bool)
    → is_running d.current ≡ true
    → let s = state_of (submit_task task_id goal urgency allow (free d)) in
      (e : TaskEvent) (id g : String) (u : Urgency) (a : Bool) (policy : InterruptionPolicy)
      → (is_blocked (push_event e s) ≡ true)
        × (is_blocked (current_task s) ≡ true)
        × (is_blocked (submit_task id g u a s) ≡ true)
        × (is_blocked (resolve_interruption id g policy a s) ≡ true)
unfolding submit_task resolve_interruption current_task
blocked_for_good d task_id goal urgency allow h e id g u a policy = ground arith

-- With no task that is still running, `submit_task` returns the new task, makes it the current
-- one, starts one worker thread for it if there is a function to run, and reports no event.
submit_task_starts :
    (d : Delegator) (task_id goal : String) (urgency : Urgency) (allow : Bool)
    → is_running d.current ≡ false
    → let t = new_task task_id goal urgency allow in
      submit_task task_id goal urgency allow (free d)
      ≡ done t (
          free (record d {
            current = some t;
            spawned = if d.has_execute_fn then d.spawned ++ task_id ∷ [] else d.spawned;
          }))
unfolding submit_task
submit_task_starts d task_id goal urgency allow h = ground arith
