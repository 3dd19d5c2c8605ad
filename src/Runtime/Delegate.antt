-- ===== src/Runtime/Delegate.antt =====
-- navigator/agent_runtime/task_delegate.py: tasks handed from the live session to the
-- orchestrator. Timestamps and the unused field `result` are left out; the identifier that
-- `uuid4` makes is an argument. A thread that is started, and a callback that is called, is
-- recorded; an exception of the callback is ignored by the code.
pub mod Locking
pub mod Events
mod Tests
use Prim.Native.String.{◌++◌ as ◌+s◌}
use navigator_ai.Prelude.{
  String, Bool, true, false, Option, none, some, List, [], ◌∷◌, ◌++◌, ◌||◌, ◌&&◌, not, ◌==◌, Eq,
  string_eq, discrete_eq, if◌then◌else◌,
}
use navigator_ai.Runtime.Lock.{Call, done, ◌>>=◌, ◌>>◌, pure, gets, modify, with_lock}

pub data TaskStatus : Type 0 where
  created plan_ready action_started action_completed verification_started : TaskStatus
  verification_complete recovery_started recovery_completed task_waiting : TaskStatus
  task_completed task_failed user_interrupted : TaskStatus

pub data InterruptionPolicy : Type 0 where
  merge queue replace : InterruptionPolicy

pub data Urgency : Type 0 where
  low normal high : Urgency

pub record TaskEvent : Type 0 where
  pub task_id : String
  pub status : TaskStatus
  pub detail : String

pub record DelegatedTask : Type 0 where
  pub task_id : String
  pub goal : String
  pub urgency : Urgency
  pub allow_browser_actions : Bool
  pub events : List TaskEvent
  pub status : TaskStatus
  pub interrupted : Bool

pub record Delegator : Type 0 where
  pub has_execute_fn : Bool
  pub has_on_event_fn : Bool
  pub current : Option DelegatedTask
  pub event_q : List TaskEvent
  pub spawned : List String
  pub notified : List TaskEvent

unfoldable pub new_delegator : Bool → Bool → Delegator
new_delegator has_execute_fn has_on_event_fn = record {
  has_execute_fn = has_execute_fn;
  has_on_event_fn = has_on_event_fn;
  current = none;
  event_q = [];
  spawned = [];
  notified = [];
}

abbrev pub finished : TaskStatus → Bool
finished task_completed = true
finished task_failed = true
finished _ = false

-- A current task that has neither completed nor failed.
abbrev pub is_running : Option DelegatedTask → Bool
is_running none = false
is_running (some t) = not (finished t.status)

abbrev pub new_task : String → String → Urgency → Bool → DelegatedTask
new_task task_id goal urgency allow = record {
  task_id = task_id;
  goal = goal;
  urgency = urgency;
  allow_browser_actions = allow;
  events = [];
  status = created;
  interrupted = false;
}

note_event : TaskEvent → Option DelegatedTask → Option DelegatedTask
note_event e none = none
note_event e (some t) =
    if t.task_id == e.task_id
    then some (record t { events = t.events ++ e ∷ []; status = e.status })
    else some t

queue_event : TaskEvent → Delegator → Delegator
queue_event e d = record d {
  event_q = d.event_q ++ e ∷ [];
  notified = if d.has_on_event_fn then d.notified ++ e ∷ [] else d.notified;
}

unfoldable pub push_event : TaskEvent → Call Delegator (Unit {0})
unfolding note_event queue_event
push_event e = do
  with_lock (modify (λ d. record d { current = note_event e d.current }))
  modify (queue_event e)

-- Everything that is queued, in order.
unfoldable pub drain_events : Call Delegator (List TaskEvent)
drain_events s = done s.obj.event_q (record s { obj = record s.obj { event_q = [] } })

unfoldable pub current_task : Call Delegator (Option DelegatedTask)
current_task = with_lock (gets (λ d. d.current))

policy_detail : InterruptionPolicy → String
policy_detail merge = "policy=merge"
policy_detail queue = "policy=queue"
policy_detail replace = "policy=replace"

mark_interrupted : DelegatedTask → Delegator → Delegator
mark_interrupted t d = record d { current = some (record t { interrupted = true }) }

interrupt_task : InterruptionPolicy → Option DelegatedTask → Call Delegator (Unit {0})
unfolding mark_interrupted policy_detail
interrupt_task policy none = pure tt
interrupt_task policy (some t) = do
  modify (mark_interrupted t)
  push_event
      (record { task_id = t.task_id; status = user_interrupted; detail = policy_detail policy })

-- Its callers hold the lock.
interrupt_current : InterruptionPolicy → Call Delegator (Unit {0})
unfolding interrupt_task
interrupt_current policy = do current ← gets (λ d. d.current); interrupt_task policy current

-- The thread that is started runs `execute_fn` on the task.
spawn_worker : DelegatedTask → Call Delegator (Unit {0})
spawn_worker t s = elim s.obj.has_execute_fn [
  | true ↦ with_lock (modify (λ d. record d { spawned = d.spawned ++ t.task_id ∷ [] })) s
  | false ↦ done tt s
]

interrupt_running : Option DelegatedTask → Call Delegator (Unit {0})
unfolding interrupt_current
interrupt_running old s = elim (is_running old) [
  | true ↦ interrupt_current replace s
  | false ↦ done tt s
]

submit : DelegatedTask → Call Delegator DelegatedTask
unfolding interrupt_running spawn_worker push_event
submit t = do
  with_lock do
    old ← gets (λ d. d.current)
    interrupt_running old
    modify (λ d. record d { current = some t })
  spawn_worker t
  pure t

unfoldable pub submit_task : String → String → Urgency → Bool → Call Delegator DelegatedTask
unfolding submit
submit_task task_id goal urgency allow = submit (new_task task_id goal urgency allow)

merge_goal : String → DelegatedTask → DelegatedTask
merge_goal goal t = record t { goal = t.goal +s ("; and also " +s goal) }

-- The rest of the block under the lock, with the current task still running.
apply_policy : InterruptionPolicy → String → DelegatedTask → Call Delegator (Option DelegatedTask)
unfolding merge_goal interrupt_current push_event
apply_policy merge goal t = do
  modify (λ d. record d { current = some (merge_goal goal t) })
  push_event
      (record { task_id = t.task_id; status = user_interrupted; detail = "merged: " +s goal })
  pure (some (merge_goal goal t))
apply_policy queue goal t = pure (some (new_task "queued" goal normal true))
apply_policy replace goal t = do interrupt_current replace; pure none

-- `none` is the way on to the call of `submit_task` below the block.
locked_part :
    String
    → String
    → InterruptionPolicy
    → Bool
    → Option DelegatedTask
    → Call Delegator (Option DelegatedTask)
unfolding apply_policy submit
locked_part task_id goal policy allow none s =
    (submit (new_task task_id goal normal allow) >>= (λ u. pure (some u))) s
locked_part task_id goal policy allow (some t) s =
    if finished t.status
    then (submit (new_task task_id goal normal allow) >>= (λ u. pure (some u))) s
    else apply_policy policy goal t s

after_part : String → String → Bool → Option DelegatedTask → Call Delegator DelegatedTask
after_part task_id goal allow (some t) = pure t
after_part task_id goal allow none = submit (new_task task_id goal normal allow)

unfoldable pub resolve_interruption :
    String → String → InterruptionPolicy → Bool → Call Delegator DelegatedTask
unfolding locked_part after_part
resolve_interruption task_id goal policy allow = do
  returned ←
      with_lock do current ← gets (λ d. d.current); locked_part task_id goal policy allow current
  after_part task_id goal allow returned
