-- ===== src/Runtime/StepExecutor/Defs.antt =====
-- The retry loop of navigator/agent_runtime/execution/demo_step_executor.py, what comes before it,
-- and the whole `execute_demo_step`.
mod Rounds
use Prim.Native.String.{◌++◌ as ◌+s◌}
use navigator_ai.Prelude.{
  ℕ, zero, suc, String, Bool, true, false, Option, none, some, List, [], ◌∷◌, ◌++◌, ◌&&◌, ◌||◌, not,
  Text, if◌then◌else◌,
}
use navigator_ai.Runtime.Models
use navigator_ai.Runtime.Models.{
  WatchdogSlice, DemoStep, DemoStepStatus, AgentEventKind, AgentAction, DemoStepVerification,
  StructuredError, SessionOutcome, SafetyClass, InteractionMode, RecoveryPolicy, Origin,
  dashboard_test, public_embed,
}
use navigator_ai.Runtime.Watchdog.{
  tick, check_timeout, record_state, record_failure, clear_failure, is_stuck,
}
use navigator_ai.Runtime.Interaction as Interaction
use navigator_ai.Runtime.Interaction.{SessionContext, InteractionResult, is_empty, spaced, or_text}
use navigator_ai.Runtime.StepExecutor.Placeholder.{resolve_action_value}
unfoldable pub use Rounds.*

module _ (b : Browser) where
  open b use {Page, now}

  pub record Ended : Type 0 where
    pub status : DemoStepStatus
    pub world : World
    pub error : Option StructuredError
    pub page : Page
    pub effects : List Effect

  unfoldable pub error_speech : Callbacks → Option StructuredError → List Effect
  error_speech cb none = []
  error_speech cb (some e) = tell cb.has_speak_error (speak_error e.visitor_message)

  -- What stands after the loop.
  unfoldable pub recover :
      Callbacks → DemoStep → World → Page → Option StructuredError → List Effect → Ended
  recover cb step w page error fx =
      let (status, w') = apply_recovery step w in
      record {
        status = status;
        world = w';
        error = error;
        page = page;
        effects = fx ++ emit Models.demo_step_failed ∷ error_speech cb error;
      }

  -- What follows a round; `rest` is the loop with the rounds that are left.
  unfoldable pub after_round :
      Callbacks
      → DemoStep
      → List Effect
      → (World → Page → Option StructuredError → List Effect → Ended)
      → Round b
      → Ended
  after_round cb step fx rest (complete w p done) = record {
    status = DemoStepStatus.complete;
    world = w;
    error = none;
    page = p;
    effects = fx ++ done;
  }
  after_round cb step fx rest (again w p e done) = rest w p (some e) (fx ++ done)
  after_round cb step fx rest (give_up w p e done) = recover cb step w p (some e) (fx ++ done)

  -- The retry loop, `left` rounds before it stops.
  unfoldable pub attempts :
      ℕ
      → Callbacks
      → DemoStep
      → World
      → String
      → AgentAction
      → Page
      → Option StructuredError
      → List Effect
      → Ended
  attempts zero cb step w before_fp action page last fx = recover cb step w page last fx
  attempts (suc left) cb step w before_fp action page last fx =
      after_round cb step fx (λ w' p e fx'. attempts left cb step w' before_fp action p e fx')
        (round b cb step w before_fp action page)

  -- Steps 2 and 3: the fingerprint and the watchdog, then at most three attempts.
  unfoldable pub run_action : Callbacks → DemoStep → World → Text → Page → List Effect → Ended
  run_action cb step w value page fx =
      let started = record w { watchdog = tick w.watchdog (now page) } in
      attempts (suc max_retries) cb step started (b.dom_fingerprint page) (agent_action step value)
        page none fx

  -- A step that ends before its action.
  unfoldable pub refuse :
      Callbacks → DemoStep → World → Page → String → String → List Effect → Ended
  refuse cb step w page error_type message fx =
      let e = make_error w step error_type message in
      let (status, w') = apply_recovery step w in
      record {
        status = status;
        world = w';
        error = some e;
        page = page;
        effects = fx ++ emit Models.demo_step_failed ∷ error_speech cb (some e);
      }

  abbrev pub interactions : List Interaction.Effect → List Effect
  interactions [] = []
  interactions (e ∷ es) = interact e ∷ interactions es

  module _ (sc : SessionContext) (extract_value : Text → Text → Text) where
    open sc use {Ctx, set}

    -- The visitor's input for the step, or the recorder's sample in a test demo.
    unfoldable pub visitor_input :
        DemoStep → World → Ctx → Option Text → InteractionResult × Ctx × List Interaction.Effect
    visitor_input step w ctx reply =
        let spec = step.interaction in
        if is_test w.origin && (is_ask spec.mode && not (is_empty spec.fallback_value))
        then (
          record { value = spec.fallback_value; timed_out = false; declined = false },
          set ctx spec.input_name spec.fallback_value,
          [],
        )
        else Interaction.resolve sc extract_value step ctx reply

    unfoldable pub after_input :
        Callbacks → DemoStep → World → InteractionResult → Ctx → List Effect → Page → Ended × Ctx
    unfolding run_action refuse resolve_action_value
    after_input cb step w r ctx fx page =
        if r.declined || r.timed_out && is_empty r.value
        then (
          refuse cb step w page "InteractionUnavailable"
              "Visitor input was not available for this step." fx,
          ctx,
        )
        else (
          run_action cb step w
              (if is_confirm step.interaction.mode
                then step.action.value
                else resolve_action_value sc ctx r.value step.interaction.input_name
                    step.action.value)
              page fx,
          ctx,
        )

    unfoldable pub interactive :
        Callbacks
        → DemoStep
        → World
        → Option Ctx
        → Option Text
        → Page
        → List Effect
        → Ended × Option Ctx
    unfolding visitor_input after_input
    interactive cb step w none reply page fx = (
      refuse cb step w page "InteractionUnavailable"
          "Step requires visitor interaction but no interaction engine is configured." fx,
      none,
    )
    interactive cb step w (some ctx) reply page fx =
        let (r, ctx1, asked) = visitor_input step w ctx reply in
        let (ended, ctx2) = after_input cb step w r ctx1 (fx ++ interactions asked) page in
        (ended, some ctx2)

    -- `ctx` is none where no interaction engine is given; `reply` is what the visitor answers.
    unfoldable pub execute_demo_step :
        Callbacks → DemoStep → World → Option Ctx → Option Text → Page → Ended × Option Ctx
    unfolding interactive
    execute_demo_step cb step w ctx reply page =
        let begun = emit Models.demo_step_started ∷ [] in
        if mutates step.safety && not step.approved
        then (
          record {
            status = DemoStepStatus.failed;
            world = w;
            error = some (
                make_error w step "mutation_not_approved"
                  "Step requires approval before executing in a live demo.");
            page = page;
            effects = begun ++ emit Models.demo_step_failed ∷ [];
          },
          ctx,
        )
        else if is_none step.interaction.mode
        then (run_action cb step w step.action.value page begun, ctx)
        else interactive cb step w ctx reply page begun
