-- ===== src/Runtime/StepExecutor/Tests.antt =====
-- A step of navigator/agent_runtime/execution/demo_step_executor.py run against small browsers:
-- one that obeys, and one on which no verification passes.
use navigator_ai.Prelude.{ℕ, suc, ◌≤◌, ◌≡◌, ◌≢◌, refl, Bool, true, false, none, [], Text, codes}
use navigator_ai.Runtime.Models.{
  DemoStep, DemoStepStatus, InteractionMode, SafetyClass, RecoveryPolicy, SessionOutcome, Tool,
  public_embed, fresh_watchdog,
}
use navigator_ai.Runtime.Watchdog.{check_timeout, tick, is_stuck, record_failure}
use navigator_ai.Runtime.Interaction.{SessionContext}
use navigator_ai.Runtime.StepExecutor.Defs.{
  World, Browser, Callbacks, returned, execute_demo_step, attempts, after_round, round, recover,
  error_speech, apply_recovery,
}
use navigator_ai.Runtime.StepExecutor.Retries.{acts, speeches, IsVerified}
use navigator_ai.Runtime.StepExecutor.Gate.{
  run, completed-IsVerified, at_most_three_acts, failure_is_plain,
}

-- A page is the number of actions done on it.
abbrev browser : Bool → Browser
browser verifies = record {
  Page = ℕ;
  execute_action = λ page id a. (returned "orders", suc page);
  wait_settled = λ page. (true, page);
  verify_step = λ page v fp. (verifies, "no such element", page);
  dom_fingerprint = λ page. "fp";
  url = λ page. "https://app/orders";
  now = λ page. 1000;
  state_fingerprint = λ u. u;
}

abbrev context : SessionContext
context = record { Ctx = Text; get = λ c k d. c; set = λ c k v. v }

abbrev callbacks : Callbacks
callbacks = record { has_speak = true; has_speak_error = true }

abbrev world : World
world = record {
  watchdog = fresh_watchdog;
  outcome = SessionOutcome.success;
  page_id = "home";
  url = "https://app";
  flow_id = "orders";
  origin = public_embed;
}

abbrev step_with : InteractionMode → SafetyClass → DemoStep
step_with mode safety = record {
  id = "s1";
  objective = codes "open the orders";
  action = record { tool = Tool.click; semantic_id = codes "orders"; page_id = "home"; value = [] };
  narration_default = codes "Here are the orders.";
  source_transcript = [];
  verification = record {
    url_contains = "orders";
    visible = "";
    text_contains = "";
    dom_fingerprint = "";
    active_nav = "";
    settled = true;
  };
  interaction = record {
    mode = mode;
    input_name = codes "name";
    input_type = codes "text";
    prompt = [];
    fallback_after_ms = 8000;
    fallback_value = [];
  };
  safety = safety;
  on_failure = RecoveryPolicy.skip;
  max_retries = 2;
  approved = false;
}

abbrev keep_reply : Text → Text → Text
keep_reply reply kind = reply

abbrev plain_step : DemoStep
plain_step = step_with InteractionMode.none SafetyClass.safe_demo

completed-IsVerified_example :
    IsVerified
      (browser true)
      plain_step
      "fp"
      (run (browser true) context keep_reply callbacks plain_step world none none 0).0.world
      (run (browser true) context keep_reply callbacks plain_step world none none 0).0.page
unfolding execute_demo_step attempts after_round round check_timeout tick is_stuck record_failure
    recover error_speech
completed-IsVerified_example =
    completed-IsVerified (browser true) context keep_reply callbacks plain_step world none none 0
      refl

at_most_three_acts_example :
    acts (run (browser false) context keep_reply callbacks plain_step world none none 0).0.effects
    ≤ 3
at_most_three_acts_example =
    at_most_three_acts (browser false) context keep_reply callbacks plain_step world none none 0

three_acts :
    acts (run (browser false) context keep_reply callbacks plain_step world none none 0).0.effects
    ≡ 3
unfolding execute_demo_step attempts after_round round check_timeout tick is_stuck record_failure
    recover error_speech
three_acts = refl

failed_not_complete : DemoStepStatus.failed ≢ DemoStepStatus.complete
failed_not_complete e = cc

failure_is_plain_example :
    (speeches
        (run (browser false) context keep_reply callbacks plain_step world none none 0).0.effects
      ≡ 0)
    × ((run (browser false) context keep_reply callbacks plain_step world none none 0).0.error
        ≢ none)
unfolding execute_demo_step attempts after_round round check_timeout tick is_stuck record_failure
    recover error_speech apply_recovery
failure_is_plain_example =
    failure_is_plain (browser false) context keep_reply callbacks plain_step world none none 0
      failed_not_complete

abbrev deleting_step : DemoStep
deleting_step = step_with InteractionMode.none SafetyClass.destructive

abbrev handoff_step : DemoStep
handoff_step = step_with InteractionMode.manual_handoff SafetyClass.safe_demo

abbrev confirm_step : DemoStep
confirm_step = step_with InteractionMode.confirm SafetyClass.safe_demo
