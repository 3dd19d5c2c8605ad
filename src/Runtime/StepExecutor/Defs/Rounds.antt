-- ===== src/Runtime/StepExecutor/Defs/Rounds.antt =====
-- One round of the retry loop of navigator/agent_runtime/execution/demo_step_executor.py, with its
-- helpers. The browser is a parameter: what `execute_action`, `wait_settled` and `verify_step`
-- answer, and the page after them. Events keep their kind, not their payload.
use Prim.Native.String.{◌++◌ as ◌+s◌}
use navigator_ai.Prelude.{
  ℕ, String, Bool, true, false, List, [], ◌∷◌, ◌++◌, ◌&&◌, not, Text, if◌then◌else◌,
}
use navigator_ai.Runtime.Models
use navigator_ai.Runtime.Models.{
  WatchdogSlice, DemoStep, DemoStepStatus, AgentEventKind, AgentAction, DemoStepVerification,
  StructuredError, SessionOutcome, SafetyClass, InteractionMode, RecoveryPolicy, Origin,
  dashboard_test, public_embed,
}
use navigator_ai.Runtime.Watchdog.{
  check_timeout, record_state, record_failure, clear_failure, is_stuck,
}
use navigator_ai.Runtime.Interaction as Interaction
use navigator_ai.Runtime.Interaction.{SessionContext, InteractionResult, is_empty, spaced, or_text}

-- The slices of `AgentWorldState` that the executor reads or writes.
pub record World : Type 0 where
  pub watchdog : WatchdogSlice
  pub outcome : SessionOutcome
  pub page_id : String
  pub url : String
  pub flow_id : String
  pub origin : Origin

pub data ActionEnd : Type 0 where
  raised : String → String → ActionEnd
  returned : String → ActionEnd

pub record Browser : Type 1 where
  pub Page : Type 0
  pub execute_action : Page → String → AgentAction → ActionEnd × Page
  pub wait_settled : Page → Bool × Page
  pub verify_step : Page → DemoStepVerification → String → Bool × String × Page
  pub dom_fingerprint : Page → String
  pub url : Page → String
  pub now : Page → ℕ
  pub state_fingerprint : String → String

pub data Effect : Type 0 where
  emit : AgentEventKind → Effect
  act : AgentAction → Effect
  speak : Text → Effect
  speak_error : String → Effect
  interact : Interaction.Effect → Effect

-- Which of the optional callbacks are given.
pub record Callbacks : Type 0 where
  pub has_speak : Bool
  pub has_speak_error : Bool

abbrev pub max_retries : ℕ
max_retries = 2

handoff_wanted : SessionOutcome → Bool
handoff_wanted SessionOutcome.handoff_required = true
handoff_wanted _ = false

unfoldable pub make_error : World → DemoStep → String → String → StructuredError
unfolding handoff_wanted
make_error w step error_type message = record {
  flow_id = w.flow_id;
  step_id = step.id;
  error_type = error_type;
  error_message = message;
  retry_count = step.max_retries;
  visitor_message =
      if handoff_wanted w.outcome
      then "It looks like this part of the demo isn't responding correctly. I'll stop here and have our team follow up with you."
      else "I ran into a small issue here. Let me try that again.";
}

by_policy : RecoveryPolicy → World → DemoStepStatus × World
by_policy RecoveryPolicy.skip w = (DemoStepStatus.failed, w)
by_policy RecoveryPolicy.replan w = (DemoStepStatus.recovering, w)
by_policy RecoveryPolicy.handoff w =
    (DemoStepStatus.failed, record w { outcome = SessionOutcome.handoff_required })
by_policy RecoveryPolicy.fail w = (DemoStepStatus.failed, w)

unfoldable pub apply_recovery : DemoStep → World → DemoStepStatus × World
unfolding by_policy
apply_recovery step w = by_policy step.on_failure w

abbrev pub mutates : SafetyClass → Bool
mutates SafetyClass.mutation = true
mutates SafetyClass.destructive = true
mutates _ = false

abbrev pub is_test : Origin → Bool
is_test dashboard_test = true
is_test public_embed = false

abbrev pub is_ask : InteractionMode → Bool
is_ask InteractionMode.ask = true
is_ask _ = false

abbrev pub is_confirm : InteractionMode → Bool
is_confirm InteractionMode.confirm = true
is_confirm _ = false

abbrev pub is_none : InteractionMode → Bool
is_none InteractionMode.none = true
is_none _ = false

abbrev pub tell : Bool → Effect → List Effect
tell given e = if given then e ∷ [] else []

unfoldable pub agent_action : DemoStep → Text → AgentAction
agent_action step value = record {
  tool = step.action.tool;
  semantic_id = step.action.semantic_id;
  label = spaced step.action.semantic_id;
  page_id = step.action.page_id;
  value = value;
  reason = step.objective;
}

module _ (b : Browser) where
  open b use {Page, execute_action, wait_settled, verify_step, url, now, state_fingerprint}

  -- How one round of the retry loop ends, with what it did.
  pub data Round : Type 0 where
    complete : World → Page → List Effect → Round
    again : World → Page → StructuredError → List Effect → Round
    give_up : World → Page → StructuredError → List Effect → Round

  settled_effects : Bool → List Effect
  settled_effects settled = tell settled (emit Models.browser_state_settled)

  verified_world : World → String → Page → World
  verified_world w next_page p = record w {
    watchdog = record_state (clear_failure w.watchdog) (state_fingerprint (url p));
    url = url p;
    page_id = next_page;
  }

  narration_effects : Callbacks → DemoStep → List Effect
  narration_effects cb step =
      let narration = or_text step.narration_default step.source_transcript in
      tell (cb.has_speak && not (is_empty narration)) (speak narration)

  -- Steps 4 and 5: the page has the action behind it, `fx` is what was done so far.
  unfoldable pub check_round :
      Callbacks → DemoStep → World → String → String → Page → List Effect → Round
  unfolding settled_effects verified_world narration_effects
  check_round cb step w before_fp next_page page fx =
      let (settled, page1) = wait_settled page in
      let (passed, reason, page2) = verify_step page1 step.verification before_fp in
      let seen = fx ++ settled_effects settled in
      let w' = record w { watchdog = record_failure w.watchdog } in
      let error =
        make_error w' step "VerificationFailed" ("Verification failed after action: " +s reason) in
      if passed
      then complete (verified_world w next_page page2) page2 (
          seen
          ++ emit Models.verification_passed
            ∷ emit Models.demo_step_complete
            ∷ narration_effects cb step)
      else if is_stuck w'.watchdog
      then give_up w' page2 error
          (seen ++ emit Models.verification_failed ∷ emit Models.loop_detected ∷ [])
      else again w' page2 error (seen ++ emit Models.verification_failed ∷ [])

  after_action : Callbacks → DemoStep → World → String → AgentAction → ActionEnd → Page → Round
  unfolding check_round
  after_action cb step w before_fp action (raised kind message) page =
      again (record w { watchdog = record_failure w.watchdog }) page
        (make_error w step kind message) (act action ∷ [])
  after_action cb step w before_fp action (returned next_page) page =
      if check_timeout w.watchdog (now page)
      then give_up w page (make_error w step "ActionTimeout" "Action exceeded 30000ms")
          (act action ∷ emit Models.action_timed_out ∷ [])
      else check_round cb step w before_fp next_page page (act action ∷ [])

  unfoldable pub round : Callbacks → DemoStep → World → String → AgentAction → Page → Round
  unfolding after_action
  round cb step w before_fp action page =
      let (end, page') = execute_action page w.page_id action in
      after_action cb step w before_fp action end page'
