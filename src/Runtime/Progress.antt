-- ===== src/Runtime/Progress.antt =====
-- navigator/agent_runtime/progress_feed.py: when the live agent is nudged to speak of a task.
-- `now` stands for the clock reading that a method takes, in milliseconds; 0 means never, as 0.0
-- does in the code. The nudges that were sent are kept, newest first.
pub mod Pace
mod Tests
use Prim.Native.String.{◌++◌ as ◌+s◌}
use navigator_ai.Prelude.{
  ℕ, ◌-◌, String, Bool, true, false, ◌&&◌, ◌||◌, not, Option, none, some, List, [], ◌∷◌, ltb, ◌==◌,
  string_eq, nat_eq, if◌then◌else◌,
}
use navigator_ai.Runtime.Delegate.{
  TaskEvent, TaskStatus, created, plan_ready, action_started, action_completed,
  verification_complete, recovery_started, task_completed, task_failed,
}

pub record Nudge : Type 0 where
  pub at : ℕ
  pub hint : String

pub record Feed : Type 0 where
  pub has_nudge : Bool
  pub min_interval : ℕ
  pub progress_threshold : ℕ
  pub last_nudge_at : ℕ
  pub task_start_at : ℕ
  pub nudges : List Nudge

unfoldable pub new_feed : Bool → ℕ → ℕ → Feed
new_feed has_nudge min_interval progress_threshold = record {
  has_nudge = has_nudge;
  min_interval = min_interval;
  progress_threshold = progress_threshold;
  last_nudge_at = 0;
  task_start_at = 0;
  nudges = [];
}

-- `_CONTEXT_HINTS`, whose keys are the notable events.
unfoldable pub context_hint : TaskStatus → Option String
context_hint plan_ready = some "You have a plan ready; optionally mention you're starting"
context_hint action_started = some "A browser action just started; only speak if asked"
context_hint action_completed = some "A step completed; you can mention progress briefly if natural"
context_hint verification_complete = some "The step was verified; continue naturally"
context_hint recovery_started =
    some "Hit a small issue, trying another way; mention casually if relevant"
context_hint task_completed = some "Task is done; give a natural summary of what was found/done"
context_hint task_failed = some "Task failed despite retries; apologise naturally and offer handoff"
context_hint _ = none

abbrev is_created : TaskStatus → Bool
is_created created = true
is_created _ = false

-- A callback that raises is ignored by the code, so it counts as told.
unfoldable pub maybe_nudge : String → ℕ → Feed → Feed
maybe_nudge hint now f =
    if not f.has_nudge || hint == ""
    then f
    else if ltb (now - f.last_nudge_at) f.min_interval
    then f
    else record f { last_nudge_at = now; nudges = record { at = now; hint = hint } ∷ f.nudges }

with_detail : String → String → String
with_detail hint detail = if detail == "" then hint else hint +s ("; detail: " +s detail)

unfoldable pub on_task_event : TaskEvent → ℕ → Feed → Feed
unfolding maybe_nudge with_detail context_hint
on_task_event e now f =
    if is_created e.status
    then record f { task_start_at = now; last_nudge_at = now }
    else elim (context_hint e.status) [
      | none ↦ f
      | some hint ↦ maybe_nudge (with_detail hint e.detail) now f
    ]

still_working : String → String
still_working goal =
    "You are still working on: "
    +s ((if goal == "" then "the task" else goal)
        +s ". Say something natural if silence has been too long.")

unfoldable pub maybe_progress_nudge : String → ℕ → Feed → Feed
unfolding maybe_nudge still_working
maybe_progress_nudge goal now f =
    if f.task_start_at == 0
    then f
    else if ltb (now - f.task_start_at) f.progress_threshold
    then f
    else maybe_nudge (still_working goal) now f

unfoldable pub reset : Feed → Feed
reset f = record f { task_start_at = 0; last_nudge_at = 0 }
