-- ===== src/Runtime/StepExecutor/Sound.antt =====
-- Every end of `execute_demo_step` is sound, in navigator/agent_runtime/execution/demo_step_executor.py.
use navigator_ai.Prelude.{
  ◌+◌, ◌≤◌, ◌≡◌, ◌≢◌, refl, String, Bool, true, false, ◌&&◌, ◌||◌, not, Option, none, some, List,
  [], ◌∷◌, ◌++◌, arith, Text, if◌then◌else◌,
}
use navigator_ai.Runtime.Models
use navigator_ai.Runtime.Models.{
  DemoStep, DemoStepStatus, AgentEventKind, AgentAction, StructuredError, InteractionMode,
}
use navigator_ai.Runtime.Interaction as Interaction
use navigator_ai.Runtime.Interaction.{
  SessionContext, InteractionResult, is_empty, resolve, confirm, heard, any_in,
}
use navigator_ai.Runtime.StepExecutor.Defs.{
  World, Browser, Effect, emit, error_speech, make_error, Callbacks, Ended, run_action, refuse,
  apply_recovery, visitor_input, interactions, after_input, interactive, execute_demo_step, mutates,
  is_none,
}
use navigator_ai.Runtime.StepExecutor.Retries.{
  acts, speeches, acts-append, speeches-append, EndIsVerified,
}
use navigator_ai.Runtime.StepExecutor.Outcome.{
  EndsPlainly, run_action-EndsPlainly, acts-run_action, run_action-IsVerified,
}

module _ (b : Browser) where
  open b use {Page, dom_fingerprint}

  pub acts-interactions : (es : List Interaction.Effect) → acts (interactions b es) ≡ 0
  acts-interactions [] = refl
  acts-interactions (e ∷ es) = omega (arith, acts-interactions es)

  speeches-interactions : (es : List Interaction.Effect) → speeches (interactions b es) ≡ 0
  speeches-interactions [] = refl
  speeches-interactions (e ∷ es) = omega (arith, speeches-interactions es)

  -- What holds of every end of a step: at most three actions beyond `fx`, success only where the
  -- verification passed, and otherwise an error and no narration.
  pub record IsSound (step : DemoStep) (page : Page) (fx : List Effect) (e : Ended b) : Type 0 where
    pub acts_bounded : acts e.effects ≤ acts fx + 3
    pub verified : EndIsVerified b step (dom_fingerprint page) e
    pub plain : EndsPlainly b fx e

  module _ (cb : Callbacks) (step : DemoStep) (w : World) (page : Page) where
    pub apply_recovery-not_complete : (apply_recovery step w).0 ≢ DemoStepStatus.complete
    unfolding apply_recovery
    apply_recovery-not_complete h = ground arith

    pub acts-refuse :
        (kind message : String) (fx : List Effect)
        → acts (refuse b cb step w page kind message fx).effects ≡ acts fx
    unfolding refuse error_speech
    acts-refuse kind message fx = ground (
      arith,
      acts-append fx (
          emit Models.demo_step_failed ∷ error_speech b cb (some (make_error w step kind message))),
    )

    speeches-refuse :
        (kind message : String) (fx : List Effect)
        → speeches (refuse b cb step w page kind message fx).effects ≡ speeches fx
    unfolding refuse error_speech
    speeches-refuse kind message fx = ground (
      arith,
      speeches-append fx (
          emit Models.demo_step_failed ∷ error_speech b cb (some (make_error w step kind message))),
    )

    pub status-refuse :
        (kind message : String) (fx : List Effect)
        → (refuse b cb step w page kind message fx).status ≡ (apply_recovery step w).0
    unfolding refuse
    status-refuse kind message fx = refl

    refuse-failed :
        (kind message : String) (fx : List Effect)
        → (refuse b cb step w page kind message fx).error ≢ none
    unfolding refuse
    refuse-failed kind message fx h = cc

    refuse-IsSound :
        (kind message : String) (fx : List Effect)
        → IsSound step page fx (refuse b cb step w page kind message fx)
    refuse-IsSound kind message fx = record {
      acts_bounded = omega (arith, acts-refuse kind message fx);
      verified = λ h. absurd (apply_recovery-not_complete (cc (status-refuse kind message fx)));
      plain = λ _. (speeches-refuse kind message fx, refuse-failed kind message fx);
    }

    run_action-IsSound :
        (value : Text) (fx : List Effect)
        → IsSound step page fx (run_action b cb step w value page fx)
    run_action-IsSound value fx = record {
      acts_bounded = (acts-run_action b cb step w value page fx).1;
      verified = run_action-IsVerified b cb step w value page fx;
      plain = run_action-EndsPlainly b cb step w value page fx;
    }

  module _ (step : DemoStep) (page : Page) where
    IsSound-if :
        (fx : List Effect) {C : Type 0} (t : Bool) (x y : Ended b × C)
        → IsSound step page fx x.0
        → IsSound step page fx y.0
        → IsSound step page fx (if◌then◌else◌ {A = Ended b × C} t x y).0
    IsSound-if fx true x y hx hy = hx
    IsSound-if fx false x y hx hy = hy

    -- Effects that neither act nor narrate may be left out of what came before.
    IsSound-from :
        (fx gx : List Effect) (e : Ended b)
        → acts fx ≡ acts gx
        → speeches fx ≡ speeches gx
        → IsSound step page fx e
        → IsSound step page gx e
    IsSound-from fx gx e same quiet h = record {
      acts_bounded = omega (arith, h.acts_bounded);
      verified = h.verified;
      plain = λ n. let (as_before, failed) = h.plain n in (omega (arith, as_before), failed);
    }

  module _ (sc : SessionContext) (extract_value : Text → Text → Text) (cb : Callbacks)
      (step : DemoStep) (w : World) (reply : Option Text) (page : Page) where
    open sc use {Ctx}

    after_input-IsSound :
        (r : InteractionResult) (ctx : Ctx) (fx : List Effect)
        → IsSound step page fx (after_input b sc extract_value cb step w r ctx fx page).0
    unfolding after_input
    after_input-IsSound r ctx fx =
        IsSound-if step page fx (r.declined || r.timed_out && is_empty r.value) (_, ctx) (_, ctx)
          (refuse-IsSound cb step w page _ _ fx) (run_action-IsSound cb step w page _ fx)

    interactive-IsSound :
        (ctx : Option Ctx) (fx : List Effect)
        → IsSound step page fx (interactive b sc extract_value cb step w ctx reply page fx).0
    unfolding interactive
    interactive-IsSound none fx = refuse-IsSound cb step w page _ _ fx
    interactive-IsSound (some ctx) fx =
        let (r, ctx1, asked) = visitor_input b sc extract_value step w ctx reply in
        IsSound-from step page (fx ++ interactions b asked) fx _
          (omega (arith, acts-append fx (interactions b asked), acts-interactions asked))
          (omega (arith, speeches-append fx (interactions b asked), speeches-interactions asked))
          (after_input-IsSound r ctx1 (fx ++ interactions b asked))

    unapproved-IsSound :
        (e : Ended b)
        → e.status ≡ DemoStepStatus.failed
        → e.error ≢ none
        → acts e.effects ≡ 0
        → speeches e.effects ≡ 0
        → IsSound step page [] e
    unapproved-IsSound e failed errs still quiet = record {
      acts_bounded = omega arith;
      verified = λ h. absurd (cc (failed, h));
      plain = λ _. (quiet, errs);
    }

    pub execute-IsSound :
        (ctx : Option Ctx)
        → IsSound step page [] (execute_demo_step b sc extract_value cb step w ctx reply page).0
    unfolding execute_demo_step
    execute-IsSound ctx =
        IsSound-if step page [] (mutates step.safety && not step.approved) (_, ctx) _
          (unapproved-IsSound _ refl (λ h. cc) refl refl)
          (IsSound-from step page begun [] _ refl refl (
            IsSound-if step page begun (is_none step.interaction.mode) (_, ctx) _
              (run_action-IsSound cb step w page step.action.value begun)
              (interactive-IsSound ctx begun)))
      where
        begun : List Effect
        begun = emit Models.demo_step_started ∷ []
