-- ===== src/Runtime/Orchestrator/Requests.antt =====
-- `handle_utterance` and `interrupt` of navigator/agent_runtime/orchestrator.py: the world state
-- after them, and what they do to the outside. A request is a call of `_request_task`. What
-- `classify_utterance` decides is an argument, and the user's message is not kept.
use navigator_ai.Prelude.{String, List, [], ◌∷◌, ◌==◌, string_eq, codes, strip, if◌then◌else◌}
use navigator_ai.Runtime.Models.{
  AgentEventKind, user_interrupted, user_utterance, agent_acknowledged,
}
use navigator_ai.Runtime.Interaction.{is_empty}
use navigator_ai.Runtime.Cancellation.{WorldState, update, apply_interruption}

pub data Request : Type 0 where
  emit : AgentEventKind → Request
  acknowledge : String → Request
  request_task : String → Request

unfoldable pub interrupt : String → String → WorldState → WorldState × List Request
unfolding update
interrupt reason new_goal s = (
  update (apply_interruption reason new_goal) s,
  emit user_interrupted
      ∷ (if is_empty (strip (codes new_goal))
          then []
          else acknowledge new_goal ∷ request_task new_goal ∷ []),
)

-- The routes of planning/router.py.
pub data Route : Type 0 where
  backchannel answer task_handoff : Route

record_user_message : WorldState → WorldState
record_user_message = update λ s. s

unfoldable pub handle_utterance : Route → String → String → WorldState → WorldState × List Request
unfolding record_user_message
handle_utterance task_handoff ack_hint text s = (
  record_user_message s,
  emit user_utterance
      ∷ acknowledge (if ack_hint == "" then text else ack_hint)
      ∷ emit agent_acknowledged
      ∷ request_task text
      ∷ [],
)
handle_utterance _ ack_hint text s = (record_user_message s, emit user_utterance ∷ [])
