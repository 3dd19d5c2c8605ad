-- ===== src/Runtime/Models.antt =====
-- navigator/agent_runtime/models.py: the enums and records of the runtime. Identifiers are
-- numbers, times are milliseconds, and texts are compared as wholes.
use navigator_ai.Prelude.{ℕ, String, Bool, false, Option, List, [], Text}

pub data TaskStatus : Type 0 where
  pending planning executing verifying recovering completed cancelled failed : TaskStatus

pub data ActionStatus : Type 0 where
  idle running verifying passed failed cancelled : ActionStatus

pub data AgentMode : Type 0 where
  idle listening speaking thinking executing : AgentMode

pub data DemoStepStatus : Type 0 where
  pending narrating acting verifying complete failed recovering : DemoStepStatus

pub data SafetyClass : Type 0 where
  safe_demo user_input mutation destructive : SafetyClass

pub data InteractionMode : Type 0 where
  none auto ask optional confirm manual_handoff : InteractionMode

pub data RecoveryPolicy : Type 0 where
  replan skip handoff fail : RecoveryPolicy

pub data SessionOutcome : Type 0 where
  success partial_success recovering handoff_required failed : SessionOutcome

pub data Origin : Type 0 where
  dashboard_test public_embed : Origin

pub record WatchdogSlice : Type 0 where
  pub last_action_started_at : Option ℕ
  pub action_timeout_ms : ℕ
  pub consecutive_failures : ℕ
  pub visited_states : List String
  pub loop_detected : Bool
  pub timed_out : Bool

-- The field defaults of the class.
abbrev pub fresh_watchdog : WatchdogSlice
fresh_watchdog = record {
  last_action_started_at = Option.none;
  action_timeout_ms = 30000;
  consecutive_failures = 0;
  visited_states = [];
  loop_detected = false;
  timed_out = false;
}

pub data AgentEventKind : Type 0 where
  session_started user_utterance agent_acknowledged task_created plan_created : AgentEventKind
  action_started action_completed verification_passed verification_failed : AgentEventKind
  screenshot_captured recovery_started recovery_completed user_interrupted : AgentEventKind
  task_cancelled task_completed session_ended action_timed_out loop_detected : AgentEventKind
  step_complete browser_state_settled demo_step_started demo_step_complete : AgentEventKind
  demo_step_failed interaction_requested interaction_resolved : AgentEventKind
  interaction_timed_out session_success session_partial session_handoff : AgentEventKind
  session_failed : AgentEventKind

-- What a `DemoStep` says of its action; the target is a semantic identifier on a page.
pub data Tool : Type 0 where
  click type navigate scroll hover wait select : Tool

pub record DemoStepAction : Type 0 where
  pub tool : Tool
  pub semantic_id : Text
  pub page_id : String
  pub value : Text

pub record DemoStepInteraction : Type 0 where
  pub mode : InteractionMode
  pub input_name : Text
  pub input_type : Text
  pub prompt : Text
  pub fallback_after_ms : ℕ
  pub fallback_value : Text

pub record DemoStepVerification : Type 0 where
  pub url_contains : String
  pub visible : String
  pub text_contains : String
  pub dom_fingerprint : String
  pub active_nav : String
  pub settled : Bool

-- The record of the narration is opened into its two fields that are read.
pub record DemoStep : Type 0 where
  pub id : String
  pub objective : Text
  pub action : DemoStepAction
  pub narration_default : Text
  pub source_transcript : Text
  pub verification : DemoStepVerification
  pub interaction : DemoStepInteraction
  pub safety : SafetyClass
  pub on_failure : RecoveryPolicy
  pub max_retries : ℕ
  pub approved : Bool

pub record StructuredError : Type 0 where
  pub flow_id : String
  pub step_id : String
  pub error_type : String
  pub error_message : String
  pub retry_count : ℕ
  pub visitor_message : String

-- The action as `execute_action` gets it; it is never interruptible.
pub record AgentAction : Type 0 where
  pub tool : Tool
  pub semantic_id : Text
  pub label : Text
  pub page_id : String
  pub value : Text
  pub reason : Text
