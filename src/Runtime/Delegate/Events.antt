-- ===== src/Runtime/Delegate/Events.antt =====
-- The event queue of navigator/agent_runtime/task_delegate.py.
use mathlib.Core.List.{append_assoc, append-nil}
use navigator_ai.Prelude.{
  String, Bool, ◌≡◌, refl, sym, ◌∙◌, some, List, [], ◌∷◌, ◌++◌, arith, if◌then◌else◌, ◌==◌,
  string_eq, keep_if, ap,
}
use navigator_ai.Runtime.Lock.{done, state_of, free}
use navigator_ai.Runtime.Delegate.{
  Delegator, DelegatedTask, TaskEvent, TaskStatus, push_event, drain_events,
}

-- Events that are pushed one after the other while the lock is free.
unfoldable pub push_all : Delegator → List TaskEvent → Delegator
push_all d [] = d
push_all d (e ∷ es) = push_all (state_of (push_event e (free d))).obj es

push_event-event_q :
    (d : Delegator) (e : TaskEvent)
    → (state_of (push_event e (free d))).obj.event_q ≡ d.event_q ++ e ∷ []
unfolding push_event
push_event-event_q d e = ground arith

event_q-push_all : (d : Delegator) (es : List TaskEvent) → (push_all d es).event_q ≡ d.event_q ++ es
unfolding push_all
event_q-push_all d [] = sym (append-nil d.event_q)
event_q-push_all d (e ∷ es) =
    event_q-push_all (state_of (push_event e (free d))).obj es
    ∙ rw push_event-event_q (append_assoc d.event_q (e ∷ []) es)

-- No event is lost or reordered: draining after any pushes returns what was queued before and
-- then every pushed event in order, whichever task it is about, and leaves the queue empty.
drain_events-push_all :
    (d : Delegator) (es : List TaskEvent)
    → drain_events (free (push_all d es))
      ≡ done (d.event_q ++ es) (free (record (push_all d es) { event_q = [] }))
unfolding drain_events
drain_events-push_all d es =
    ap (λ q. done q (free (record (push_all d es) { event_q = [] }))) (event_q-push_all d es)

-- The status after the events, of which only those about the task count.
unfoldable pub last_status : String → TaskStatus → List TaskEvent → TaskStatus
last_status id s [] = s
last_status id s (e ∷ es) = last_status id (if id == e.task_id then e.status else s) es

abbrev pub about : String → TaskEvent → Bool
about id e = id == e.task_id

pub record Follows (t u : DelegatedTask) (es : List TaskEvent) : Type 0 where
  pub id : u.task_id ≡ t.task_id
  pub status : u.status ≡ last_status t.task_id t.status es
  pub events : u.events ≡ t.events ++ keep_if (about t.task_id) es
  pub goal : u.goal ≡ t.goal

abbrev noted : TaskEvent → DelegatedTask → DelegatedTask
noted e t =
    if t.task_id == e.task_id
    then record t { events = t.events ++ e ∷ []; status = e.status }
    else t

current-push_event :
    (d : Delegator) (t : DelegatedTask) (e : TaskEvent)
    → d.current ≡ some t
    → (state_of (push_event e (free d))).obj.current ≡ some (noted e t)
unfolding push_event
current-push_event d t e h = ground arith

Follows-step :
    (t u : DelegatedTask) (e : TaskEvent) (es : List TaskEvent)
    → Follows (noted e t) u es
    → Follows t u (e ∷ es)
unfolding last_status
Follows-step t u e es f =
    ground (arith, f, append_assoc t.events (e ∷ []) (keep_if (about t.task_id) es))

-- The current task collects exactly the events that carry its identifier, takes the status of the
-- last of them, and keeps its identifier and goal.
push_all-Follows :
    (d : Delegator) (t : DelegatedTask) (es : List TaskEvent)
    → d.current ≡ some t
    → (u : DelegatedTask) × ((push_all d es).current ≡ some u) × Follows t u es
unfolding push_all last_status
push_all-Follows d t [] h =
    (t, h, record { id = refl; status = refl; events = sym (append-nil t.events); goal = refl })
push_all-Follows d t (e ∷ es) h =
    let (u, now, f) =
      push_all-Follows (state_of (push_event e (free d))).obj (noted e t) es
        (current-push_event d t e h) in
    (u, now, Follows-step t u e es f)
