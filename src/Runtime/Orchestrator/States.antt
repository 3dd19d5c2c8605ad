-- ===== src/Runtime/Orchestrator/States.antt =====
-- What the state updates of navigator/agent_runtime/orchestrator.py keep and set.
use navigator_ai.Prelude.{ℕ, ◌≡◌, String, Bool, true, false, Option, none, some, arith, string_eq}
use navigator_ai.Runtime.Models.{TaskStatus, ActionStatus}
use navigator_ai.Runtime.Cancellation.{
  AgentTask, WorldState, update, with_status, after_atomic_action,
}
use navigator_ai.Runtime.Orchestrator.{
  mark_task, speak_result, speak_error, acted_state, passed_state, failed_state,
  refresh_browser_state, acting_state, moved_state, speaking_passed, speaking_failed,
  speaking_result,
}

abbrev pub status_of : Option AgentTask → Option TaskStatus
status_of none = none
status_of (some t) = some t.status

abbrev pub has_task : Option AgentTask → Bool
has_task none = false
has_task (some t) = true

-- The action status is still `running` when `after_atomic_action` is asked, so it does nothing.
pub passed_state-keeps :
    (idx now : ℕ) (page url fp spoken : String) (s : WorldState)
    → let t = passed_state idx fp spoken (acted_state now page url s) in
      (t.interruption ≡ s.interruption)
      × (has_task t.task ≡ has_task s.task)
      × (status_of t.task ≡ status_of s.task)
      × (t.agent.executing ≡ s.agent.executing)
unfolding passed_state acted_state refresh_browser_state after_atomic_action speak_result update
passed_state-keeps idx now page url fp spoken s = ground arith

-- An action was begun and is not over.
pub record IsActing (s t : WorldState) : Type 0 where
  pub interruption : t.interruption ≡ s.interruption
  pub status : status_of t.task ≡ status_of s.task
  pub action_status : t.action_status ≡ ActionStatus.running
  pub executing : t.agent.executing ≡ s.agent.executing

pub acting_state-IsActing : (now : ℕ) (s : WorldState) → IsActing s (acting_state now s)
unfolding acting_state update
acting_state-IsActing now s = ground arith

pub moved_state-IsActing :
    (now : ℕ) (page : String) (s : WorldState) → IsActing s (moved_state now page s)
unfolding moved_state update
moved_state-IsActing now page s = ground arith

pub acted_state-IsActing :
    (now : ℕ) (page url : String) (s : WorldState) → IsActing s (acted_state now page url s)
unfolding acted_state refresh_browser_state update
acted_state-IsActing now page url s = ground arith

pub speaking_passed-IsActing :
    (now : ℕ) (page url fp spoken : String) (s : WorldState)
    → IsActing s (speaking_passed fp spoken (acted_state now page url s))
unfolding speaking_passed acted_state refresh_browser_state update
speaking_passed-IsActing now page url fp spoken s = ground arith

pub speaking_failed-IsActing :
    (now : ℕ) (page url : String) (s : WorldState)
    → IsActing s (speaking_failed (acted_state now page url s))
unfolding speaking_failed acted_state refresh_browser_state update
speaking_failed-IsActing now page url s = ground arith

pub speaking_result-keeps :
    (text : String) (s : WorldState)
    → ((speaking_result text s).task ≡ s.task)
      × ((speaking_result text s).interruption ≡ s.interruption)
      × ((speaking_result text s).action_status ≡ s.action_status)
      × ((speaking_result text s).agent.executing ≡ s.agent.executing)
      × ((speaking_result text s).agent.thinking ≡ s.agent.thinking)
unfolding speaking_result update
speaking_result-keeps text s = ground arith

pub record IsIdle (s t : WorldState) : Type 0 where
  pub interruption : t.interruption ≡ s.interruption
  pub action_status : t.action_status ≡ ActionStatus.idle
  pub executing : t.agent.executing ≡ false
  pub thinking : t.agent.thinking ≡ false

pub failed_state-IsIdle :
    (now : ℕ) (page url : String) (s : WorldState)
    → IsIdle s (failed_state (acted_state now page url s))
unfolding failed_state acted_state refresh_browser_state mark_task speak_error update
failed_state-IsIdle now page url s = ground arith

pub mark_task-IsIdle : (status : TaskStatus) (s : WorldState) → IsIdle s (mark_task status s)
unfolding mark_task update
mark_task-IsIdle status s = ground arith

pub status-mark_task :
    (status : TaskStatus) (s : WorldState)
    → has_task s.task ≡ true
    → status_of (mark_task status s).task ≡ some status
unfolding mark_task update with_status
status-mark_task status s h = ground arith

pub speak_result-keeps :
    (text : String) (s : WorldState)
    → ((speak_result text s).task ≡ s.task)
      × ((speak_result text s).interruption ≡ s.interruption)
      × ((speak_result text s).action_status ≡ s.action_status)
      × ((speak_result text s).agent.executing ≡ s.agent.executing)
      × ((speak_result text s).agent.thinking ≡ s.agent.thinking)
unfolding speak_result update
speak_result-keeps text s = ground arith

pub status-failed_state :
    (now : ℕ) (page url : String) (s : WorldState)
    → has_task s.task ≡ true
    → status_of (failed_state (acted_state now page url s)).task ≡ some TaskStatus.failed
unfolding failed_state acted_state refresh_browser_state mark_task speak_error update with_status
status-failed_state now page url s h = ground arith
