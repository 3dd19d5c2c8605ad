-- ===== src/Runtime/StepExecutor/Gate.antt =====
-- What `execute_demo_step` of navigator/agent_runtime/execution/demo_step_executor.py guarantees.
use navigator_ai.Prelude.{
  ◌+◌, ◌≤◌, ◌≡◌, ◌≢◌, refl, true, false, ◌&&◌, ◌||◌, not, Option, none, some, List, [], ◌∷◌, ◌++◌,
  arith, Text, Bool-cases, inl, inr, sym, ◌∙◌, ap,
}
use navigator_ai.Runtime.Models
use navigator_ai.Runtime.Models.{DemoStep, DemoStepStatus, InteractionMode}
use navigator_ai.Runtime.Interaction.{SessionContext, InteractionResult, is_empty, resolve, confirm}
use navigator_ai.Runtime.Interaction.Confirm.{confirm_silence}
use navigator_ai.Runtime.StepExecutor.Defs.{
  World, Browser, Effect, emit, Callbacks, Ended, apply_recovery, visitor_input, interactions,
  after_input, interactive, execute_demo_step, mutates, is_none,
}
use navigator_ai.Runtime.StepExecutor.Retries.{acts, speeches, acts-append, IsVerified}
use navigator_ai.Runtime.StepExecutor.Outcome.{acts-run_action}
use navigator_ai.Runtime.StepExecutor.Sound.{
  execute-IsSound, acts-refuse, acts-interactions, status-refuse, apply_recovery-not_complete,
}

module _ (b : Browser) (sc : SessionContext) (extract_value : Text → Text → Text) (cb : Callbacks)
    (step : DemoStep) (w : World) (ctx : Option sc.Ctx) (reply : Option Text) (page : b.Page) where
  abbrev pub run : Ended b × Option sc.Ctx
  run = execute_demo_step b sc extract_value cb step w ctx reply page

  -- A step is reported complete only if `verify_step`, asked on some page with the fingerprint
  -- that was taken before the action, said that the step passed: the page it left is the one that
  -- is returned, its address is recorded, and the failure count is 0.
  pub completed-IsVerified :
      run.0.status ≡ DemoStepStatus.complete
      → IsVerified b step (b.dom_fingerprint page) run.0.world run.0.page
  completed-IsVerified = (execute-IsSound b sc extract_value cb step w reply page ctx).verified

  -- Whatever the browser does, one step acts on it at most three times.
  pub at_most_three_acts : acts run.0.effects ≤ 3
  at_most_three_acts =
      omega (arith, (execute-IsSound b sc extract_value cb step w reply page ctx).acts_bounded)

  -- A step that is not complete speaks no narration, so nothing is claimed of an action that did
  -- not verify, and comes with an error.
  pub failure_is_plain :
      run.0.status ≢ DemoStepStatus.complete → (speeches run.0.effects ≡ 0) × (run.0.error ≢ none)
  failure_is_plain = (execute-IsSound b sc extract_value cb step w reply page ctx).plain

  -- A step that mutates or destroys and was not approved fails at once: the browser is not
  -- touched, nothing is spoken, and the world, the page and the session stay as they were.
  pub unapproved_mutation_refused :
      mutates step.safety ≡ true
      → step.approved ≡ false
      → (run.0.status ≡ DemoStepStatus.failed)
        × (acts run.0.effects ≡ 0)
        × (speeches run.0.effects ≡ 0)
        × (run.0.world ≡ w)
        × (run.0.page ≡ page)
        × (run.1 ≡ ctx)
  unfolding execute_demo_step
  unapproved_mutation_refused h n = rw (h, n) (refl, refl, refl, refl, refl, refl)

module _ (b : Browser) (sc : SessionContext) (extract_value : Text → Text → Text) (cb : Callbacks)
    (step : DemoStep) (w : World) (ctx : sc.Ctx) (reply : Option Text) (page : b.Page) where
  abbrev pub answer : InteractionResult
  answer = (visitor_input b sc extract_value step w ctx reply).0

  interactive-refused :
      (fx : List Effect)
      → answer.declined || answer.timed_out && is_empty answer.value ≡ true
      → let e = (interactive b sc extract_value cb step w (some ctx) reply page fx).0 in
        (acts e.effects ≡ acts fx) × (e.status ≡ (apply_recovery step w).0)
  unfolding interactive after_input
  interactive-refused fx h =
      let asked = interactions b (visitor_input b sc extract_value step w ctx reply).2 in
      rw h (
        omega (
          arith,
          acts-refuse b cb step w page "InteractionUnavailable"
              "Visitor input was not available for this step." (fx ++ asked),
          acts-append fx asked,
          acts-interactions b (visitor_input b sc extract_value step w ctx reply).2,
        ),
        status-refuse b cb step w page "InteractionUnavailable"
            "Visitor input was not available for this step." (fx ++ asked),
      )

  interactive-accepted :
      (fx : List Effect)
      → (answer.declined || answer.timed_out && is_empty answer.value) ≡ false
      → let e = (interactive b sc extract_value cb step w (some ctx) reply page fx).0 in
        acts fx + 1 ≤ acts e.effects
  unfolding interactive after_input
  interactive-accepted fx h =
      let asked = interactions b (visitor_input b sc extract_value step w ctx reply).2 in
      rw h (
        omega (
          arith,
          (acts-run_action b cb step w _ page (fx ++ asked)).0,
          acts-append fx asked,
          acts-interactions b (visitor_input b sc extract_value step w ctx reply).2,
        ))

  abbrev pub outcome : Ended b × Option sc.Ctx
  outcome = execute_demo_step b sc extract_value cb step w (some ctx) reply page

  -- With an interaction engine, a step that needs the visitor does not touch the browser when the
  -- visitor declined, or did not answer in time and left no value, and is not reported complete.
  unresolved_input_refused :
      is_none step.interaction.mode ≡ false
      → answer.declined || answer.timed_out && is_empty answer.value ≡ true
      → (acts outcome.0.effects ≡ 0) × (outcome.0.status ≢ DemoStepStatus.complete)
  unfolding execute_demo_step
  unresolved_input_refused m h = elim (Bool-cases (mutates step.safety && not step.approved)) [
    | inl blocked ↦ rw blocked (refl, λ e. cc)
    | inr free ↦
        let (still, ended) = interactive-refused (emit Models.demo_step_started ∷ []) h in
        rw (free, m) (still, λ e. apply_recovery-not_complete b cb step w page (sym ended ∙ e))
  ]

  answer-confirm : step.interaction.mode ≡ InteractionMode.confirm → answer ≡ (confirm step reply).0
  unfolding visitor_input resolve
  answer-confirm c = ground arith

  silent_answer :
      step.interaction.mode ≡ InteractionMode.confirm
      → reply ≡ none
      → (answer.declined || answer.timed_out && is_empty answer.value) ≡ false
  silent_answer c r =
      let said : answer ≡ record { value = []; timed_out = false; declined = false } =
        answer-confirm c ∙ (ap (λ o. (confirm step o).0) r ∙ confirm_silence step) in
      ap (λ (a : InteractionResult). a.declined || a.timed_out && is_empty a.value) said

  -- With an interaction engine, a visitor who is asked to confirm and stays silent does not stop
  -- the step: if it is approved or changes nothing, the browser acts.
  silent_confirmation_acts :
      mutates step.safety && not step.approved ≡ false
      → step.interaction.mode ≡ InteractionMode.confirm
      → reply ≡ none
      → 1 ≤ acts outcome.0.effects
  unfolding execute_demo_step
  silent_confirmation_acts m c r =
      rw (m, ap is_none c)
        (omega
          (arith, interactive-accepted (emit Models.demo_step_started ∷ []) (silent_answer c r)))
