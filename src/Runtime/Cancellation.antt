-- ===== src/Runtime/Cancellation.antt =====
-- navigator/agent_runtime/execution/cancellation.py and the world state that it works on: the
-- slices of `AgentWorldState` (models.py) that the orchestrator reads or writes, and the versioned
-- store (world_state/store.py). Payloads, timestamps and the conversation's user side are left out.
use navigator_ai.Prelude.{ℕ, ◌+◌, String, Bool, true, false, not, Option, none, some, if◌then◌else◌}
use navigator_ai.Runtime.Models.{TaskStatus, ActionStatus, AgentMode, WatchdogSlice}

pub record AgentTask : Type 0 where
  pub goal : String
  pub status : TaskStatus
  pub current_step : ℕ

pub record AgentSlice : Type 0 where
  pub mode : AgentMode
  pub speaking : Bool
  pub thinking : Bool
  pub executing : Bool

pub record InterruptionSlice : Type 0 where
  pub requested : Bool
  pub reason : String
  pub new_goal : String

pub record WorldState : Type 0 where
  pub version : ℕ
  pub page_id : String
  pub url : String
  pub task : Option AgentTask
  pub action_status : ActionStatus
  pub agent : AgentSlice
  pub interruption : InterruptionSlice
  pub recovery : String
  pub watchdog : WatchdogSlice
  pub last_agent_message : String

-- `WorldStateStore.update`: the next state gets the next version.
unfoldable pub update : (WorldState → WorldState) → WorldState → WorldState
update reducer s = record (reducer s) { version = s.version + 1 }

unfoldable pub apply_interruption : String → String → WorldState → WorldState
apply_interruption reason new_goal s = record s {
  interruption = record { requested = true; reason = reason; new_goal = new_goal };
}

abbrev pub is_running : ActionStatus → Bool
is_running ActionStatus.running = true
is_running _ = false

abbrev pub is_cancelled : TaskStatus → Bool
is_cancelled TaskStatus.cancelled = true
is_cancelled _ = false

unfoldable pub with_status : TaskStatus → Option AgentTask → Option AgentTask
with_status status none = none
with_status status (some t) = some (record t { status = status })

unfoldable pub after_atomic_action : WorldState → WorldState
unfolding with_status
after_atomic_action s =
    if not s.interruption.requested then s else if is_running s.action_status then s else record s {
      task = with_status TaskStatus.cancelled s.task;
      interruption = record s.interruption { requested = false };
      recovery = "";
    }

unfoldable pub should_cancel_remaining_plan : WorldState → Bool
should_cancel_remaining_plan s = elim s.task [ none ↦ false | some t ↦ is_cancelled t.status ]
