-- ===== src/Runtime/Progress/Tests.antt =====
-- A task that is created, acts twice in quick succession, and is looked at later.
use navigator_ai.Prelude.{◌≡◌, refl, true, List, [], ◌∷◌, length}
use navigator_ai.Runtime.Delegate.{TaskEvent, TaskStatus, created, action_completed}
use navigator_ai.Runtime.Progress.{new_feed, on_task_event, maybe_progress_nudge}
use navigator_ai.Runtime.Progress.Pace.{Call, event, look, run, run_call}

abbrev of_task : TaskStatus → TaskEvent
of_task status = record { task_id = "t1"; status = status; detail = "" }

abbrev calls : List Call
calls =
    event (of_task created) 1000
    ∷ event (of_task action_completed) 6000
    ∷ event (of_task action_completed) 7000
    ∷ look "orders" 10000
    ∷ []

two_nudges : length (run calls (new_feed true 4000 8000)).nudges ≡ 2
unfolding run run_call on_task_event maybe_progress_nudge new_feed
two_nudges = refl
