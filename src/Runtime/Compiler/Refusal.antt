-- ===== src/Runtime/Compiler/Refusal.antt =====
-- Which recorded steps navigator/agent_runtime/demo_compiler.py compiles, and what
-- navigator/agent_runtime/execution/demo_step_executor.py makes of them.
use mathlib.Core.Option.{none-ne-some, some-injective}
use navigator_ai.Prelude.{
  ◌≡◌, ◌↔◌, refl, sym, ap, ◌∙◌, ◌⊎◌, inl, inr, Bool, true, false, Option, none, some, List, [], ◌∷◌,
  ◌&&◌, ◌||◌, not, Bool-cases, Text, ◌>>=◌, arith,
}
use navigator_ai.Runtime.Models.{DemoStepStatus, DemoStepInteraction}
use navigator_ai.Runtime.Recorded.{
  RecordedStep, classify_safety, says_destructive, says_mutation, is_input_tool,
}
use navigator_ai.Runtime.Compiler.{
  CompiledStep, compile_step, compiled_with, build_interaction, asks_visitor, is_user_input,
  compile_flow,
}
use navigator_ai.Runtime.Interaction.{SessionContext}
use navigator_ai.Runtime.StepExecutor.{World, Browser, Callbacks, mutates}
use navigator_ai.Runtime.StepExecutor.Retries.{acts, speeches}
use navigator_ai.Runtime.StepExecutor.Gate.{run, unapproved_mutation_refused}

-- A step that needs approval is never classified as one that takes the visitor's input.
approval_not_input :
    (s : RecordedStep) → s.needs_approval ≡ true → is_user_input (classify_safety s) ≡ false
unfolding classify_safety says_destructive
approval_not_input s e =
    rw e (elim (Bool-cases (says_destructive s)) [ inl f ↦ rw f refl | inr f ↦ rw f refl ])

build_interaction-none :
    (s : RecordedStep)
    → (build_interaction s (classify_safety s) ≡ none)
      ↔ ((s.needs_approval && not (asks_visitor s)) ≡ true)
unfolding build_interaction
build_interaction-none s =
    by_tests (Bool-cases (asks_visitor s)) (Bool-cases s.needs_approval) (approval_not_input s)
  where
    by_tests :
        (asks_visitor s ≡ true) ⊎ (asks_visitor s ≡ false)
        → (s.needs_approval ≡ true) ⊎ (s.needs_approval ≡ false)
        → (s.needs_approval ≡ true → is_user_input (classify_safety s) ≡ false)
        → (build_interaction s (classify_safety s) ≡ none)
          ↔ ((s.needs_approval && not (asks_visitor s)) ≡ true)
    by_tests (inl a) n h = ground (arith, a)
    by_tests (inr a) (inl n) h = ground (arith, a, n, h n)
    by_tests (inr a) (inr n) h = ground (arith, a, n)

-- Compiling a step reads the attribute `approved`, which recorded steps do not have.
abbrev pub raises : RecordedStep → Bool
raises s = s.needs_approval && not (asks_visitor s)

abbrev pub any_raises : List RecordedStep → Bool
any_raises [] = false
any_raises (s ∷ ss) = raises s || any_raises ss

compile_step-raises :
    (s : RecordedStep) (objective : Text) → (compile_step s objective ≡ none) ↔ (raises s ≡ true)
unfolding compile_step
compile_step-raises s objective =
    by_result (build_interaction s (classify_safety s)) (build_interaction-none s)
  where
    by_result :
        (o : Option DemoStepInteraction)
        → (o ≡ none) ↔ (raises s ≡ true)
        → ((o >>= λ i. some (compiled_with s objective i)) ≡ none) ↔ (raises s ≡ true)
    by_result none h = ((λ e. h.0 refl), (λ e. refl))
    by_result (some i) h = ((λ e. cc), (λ e. absurd (none-ne-some i (sym (h.1 e)))))

-- Compiling a flow raises AttributeError, and gives no steps at all, exactly if one of its steps
-- needs approval and does not ask the visitor: the code that should have it confirmed reads an
-- attribute that recorded steps do not have.
pub compile_flow-raises :
    (ss : List RecordedStep) (objective : Text)
    → (compile_flow ss objective ≡ none) ↔ (any_raises ss ≡ true)
unfolding compile_flow
compile_flow-raises [] objective = ((λ e. cc), (λ e. cc))
compile_flow-raises (s ∷ ss) objective =
    by_results (compile_step s objective) (compile_flow ss objective)
      (compile_step-raises s objective) (compile_flow-raises ss objective)
  where
    by_results :
        (o : Option CompiledStep) (os : Option (List CompiledStep))
        → (o ≡ none) ↔ (raises s ≡ true)
        → (os ≡ none) ↔ (any_raises ss ≡ true)
        → ((o >>= λ c. os >>= λ cs. some (c ∷ cs)) ≡ none) ↔ ((raises s || any_raises ss) ≡ true)
    by_results none os h k = ((λ e. ground (arith, h.0 refl)), (λ e. refl))
    by_results (some c) none h k = ((λ e. ground (arith, k.0 refl)), (λ e. refl))
    by_results (some c) (some cs) h k = (
      (λ e. absurd (none-ne-some (c ∷ cs) (sym e))),
      (λ e. elim (Bool-cases (raises s)) [
        | inl f ↦ absurd (none-ne-some c (sym (h.1 f)))
        | inr f ↦ absurd (none-ne-some cs (sym (k.1 (ground (arith, e, f)))))
      ]),
    )

compile_step-compiled_with :
    (s : RecordedStep) (objective : Text) (c : CompiledStep)
    → compile_step s objective ≡ some c
    → (c.step.safety ≡ classify_safety s) × (c.step.approved ≡ false)
unfolding compile_step compiled_with
compile_step-compiled_with s objective c e = by_result (build_interaction s (classify_safety s)) e
  where
    by_result :
        (o : Option DemoStepInteraction)
        → (o >>= λ i. some (compiled_with s objective i)) ≡ some c
        → (c.step.safety ≡ classify_safety s) × (c.step.approved ≡ false)
    by_result none f = absurd (none-ne-some c f)
    by_result (some i) f =
        let same = some-injective (compiled_with s objective i) c f in
        (sym (ap (λ x. x.step.safety) same), sym (ap (λ x. x.step.approved) same))

risky-mutates :
    (s : RecordedStep)
    → is_input_tool s ≡ false
    → (says_destructive s || says_mutation s) ≡ true
    → mutates (classify_safety s) ≡ true
unfolding classify_safety
risky-mutates s t h = ground arith

module _ (b : Browser) (sc : SessionContext) (extract_value : Text → Text → Text) (cb : Callbacks)
    (w : World) (ctx : Option sc.Ctx) (reply : Option Text) (page : b.Page) where
  -- A recorded step whose alias has a word such as delete, send or save, and that does not fill a
  -- field, is never performed: if it compiles at all, the executor fails the step without
  -- touching the browser and without a word, whatever the browser, the visitor and the world are.
  pub risky_step_refused :
      (s : RecordedStep) (objective : Text) (c : CompiledStep)
      → compile_step s objective ≡ some c
      → is_input_tool s ≡ false
      → (says_destructive s || says_mutation s) ≡ true
      → let ended = (run b sc extract_value cb c.step w ctx reply page).0 in
        (ended.status ≡ DemoStepStatus.failed)
        × (acts ended.effects ≡ 0)
        × (speeches ended.effects ≡ 0)
  risky_step_refused s objective c e t h =
      let (safety, approved) = compile_step-compiled_with s objective c e in
      let (failed, untouched, silent, same_world, same_page, same_context) =
        unapproved_mutation_refused b sc extract_value cb c.step w ctx reply page
          (ap mutates safety ∙ risky-mutates s t h) approved in
      (failed, untouched, silent)
