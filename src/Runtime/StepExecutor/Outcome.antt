-- ===== src/Runtime/StepExecutor/Outcome.antt =====
-- How a run of the retry loop of navigator/agent_runtime/execution/demo_step_executor.py ends:
-- with a verified action, or with an error and no claim of success.
use navigator_ai.Prelude.{
  ℕ, zero, suc, ◌+◌, ◌≤◌, ◌≡◌, ◌≢◌, refl, String, Option, none, some, List, ◌++◌, arith, Text,
}
use navigator_ai.Runtime.Models.{DemoStep, DemoStepStatus, AgentAction, StructuredError}
use navigator_ai.Runtime.StepExecutor.Defs.{
  World, Browser, Effect, Callbacks, Round, complete, again, give_up, Ended, round, check_round,
  recover, attempts, run_action, after_round, max_retries, agent_action,
}
use navigator_ai.Runtime.StepExecutor.Retries.{
  acts, speeches, acts-append, speeches-append, acts-round, effects_of, acts-recover,
  speeches-recover, acts-attempts-le, EndIsVerified, attempts-IsVerified,
}

lt_le : {m n : ℕ} → m + 1 ≤ n → m ≤ n
lt_le h = omega arith

module _ (b : Browser) where
  open b use {Page}

  acts-after_round-ge :
      (cb : Callbacks) (step : DemoStep) (fx : List Effect)
      (rest : World → Page → Option StructuredError → List Effect → Ended b)
      → ((w : World) (p : Page) (e : Option StructuredError) (gx : List Effect)
          → acts gx ≤ acts (rest w p e gx).effects)
      → (r : Round b) → acts (effects_of b r) ≡ 1
      → acts fx + 1 ≤ acts (after_round b cb step fx rest r).effects
  unfolding after_round
  acts-after_round-ge cb step fx rest h (complete w p done) one = omega (arith, acts-append fx done)
  acts-after_round-ge cb step fx rest h (again w p e done) one =
      omega (arith, acts-append fx done, h w p (some e) (fx ++ done))
  acts-after_round-ge cb step fx rest h (give_up w p e done) one =
      omega (arith, acts-append fx done, acts-recover b cb step w p (some e) (fx ++ done))

  acts-attempts-ge :
      (left : ℕ) (cb : Callbacks) (step : DemoStep) (w : World) (fp : String) (a : AgentAction)
      (page : Page) (last : Option StructuredError) (fx : List Effect)
      → acts fx ≤ acts (attempts b left cb step w fp a page last fx).effects
  unfolding attempts
  acts-attempts-ge zero cb step w fp a page last fx =
      omega (arith, acts-recover b cb step w page last fx)
  acts-attempts-ge (suc left) cb step w fp a page last fx = lt_le (
      acts-after_round-ge cb step fx _ (λ w' p e gx. acts-attempts-ge left cb step w' fp a p e gx)
        (round b cb step w fp a page) (acts-round b cb step w fp a page))

  -- With a round left, the browser acts.
  acts-attempts-suc-ge :
      (left : ℕ) (cb : Callbacks) (step : DemoStep) (w : World) (fp : String) (a : AgentAction)
      (page : Page) (last : Option StructuredError) (fx : List Effect)
      → acts fx + 1 ≤ acts (attempts b (suc left) cb step w fp a page last fx).effects
  unfolding attempts
  acts-attempts-suc-ge left cb step w fp a page last fx =
      acts-after_round-ge cb step fx _ (λ w' p e gx. acts-attempts-ge left cb step w' fp a p e gx)
        (round b cb step w fp a page) (acts-round b cb step w fp a page)

  -- What a run adds to the effects `fx` when it does not end in success.
  abbrev pub EndsPlainly : List Effect → Ended b → Type 0
  EndsPlainly fx e =
      e.status ≢ DemoStepStatus.complete → (speeches e.effects ≡ speeches fx) × (e.error ≢ none)

  abbrev PlainRound : Round b → Type 0
  PlainRound (complete w p fx) = Unit
  PlainRound (again w p e fx) = speeches fx ≡ 0
  PlainRound (give_up w p e fx) = speeches fx ≡ 0

  round-plain :
      (cb : Callbacks) (step : DemoStep) (w : World) (fp : String) (a : AgentAction) (page : Page)
      (r : Round b)
      → round b cb step w fp a page ≡ r
      → PlainRound r
  unfolding round check_round
  round-plain cb step w fp a page (complete w' p fx) h = tt
  round-plain cb step w fp a page (again w' p e fx) h = ground arith
  round-plain cb step w fp a page (give_up w' p e fx) h = ground arith

  recover-EndsPlainly :
      (cb : Callbacks) (step : DemoStep) (w : World) (page : Page) (e : StructuredError)
      (fx : List Effect)
      → EndsPlainly fx (recover b cb step w page (some e) fx)
  unfolding recover
  recover-EndsPlainly cb step w page e fx n =
      (speeches-recover b cb step w page (some e) fx, λ h. cc)

  after_round-EndsPlainly :
      (cb : Callbacks) (step : DemoStep) (fx : List Effect)
      (rest : World → Page → Option StructuredError → List Effect → Ended b)
      → ((w : World) (p : Page) (e : StructuredError) (gx : List Effect)
          → EndsPlainly gx (rest w p (some e) gx))
      → (r : Round b) → PlainRound r
      → EndsPlainly fx (after_round b cb step fx rest r)
  unfolding after_round
  after_round-EndsPlainly cb step fx rest h (complete w p done) v n = absurd (n refl)
  after_round-EndsPlainly cb step fx rest h (again w p e done) v n =
      let (quiet, failed) = h w p e (fx ++ done) n in
      (omega (arith, speeches-append fx done, quiet, v), failed)
  after_round-EndsPlainly cb step fx rest h (give_up w p e done) v n =
      let (quiet, failed) = recover-EndsPlainly cb step w p e (fx ++ done) n in
      (omega (arith, speeches-append fx done, quiet, v), failed)

  -- A loop that has rounds left, or has an error to report, ends plainly.
  loop-EndsPlainly :
      (left : ℕ) (cb : Callbacks) (step : DemoStep) (w : World) (fp : String) (a : AgentAction)
      (page : Page) (e : StructuredError) (fx : List Effect)
      → EndsPlainly fx (attempts b left cb step w fp a page (some e) fx)
  unfolding attempts
  loop-EndsPlainly zero cb step w fp a page e fx = recover-EndsPlainly cb step w page e fx
  loop-EndsPlainly (suc left) cb step w fp a page e fx =
      after_round-EndsPlainly cb step fx _
        (λ w' p e' gx. loop-EndsPlainly left cb step w' fp a p e' gx) (round b cb step w fp a page)
        (round-plain cb step w fp a page (round b cb step w fp a page) refl)

  attempts_suc-EndsPlainly :
      (left : ℕ) (cb : Callbacks) (step : DemoStep) (w : World) (fp : String) (a : AgentAction)
      (page : Page) (last : Option StructuredError) (fx : List Effect)
      → EndsPlainly fx (attempts b (suc left) cb step w fp a page last fx)
  unfolding attempts
  attempts_suc-EndsPlainly left cb step w fp a page last fx =
      after_round-EndsPlainly cb step fx _
        (λ w' p e gx. loop-EndsPlainly left cb step w' fp a p e gx) (round b cb step w fp a page)
        (round-plain cb step w fp a page (round b cb step w fp a page) refl)

  module _ (cb : Callbacks) (step : DemoStep) (w : World) (value : Text) (page : Page)
      (fx : List Effect) where
    pub run_action-EndsPlainly : EndsPlainly fx (run_action b cb step w value page fx)
    unfolding run_action
    run_action-EndsPlainly =
        attempts_suc-EndsPlainly max_retries cb step _ (b.dom_fingerprint page)
          (agent_action step value) page none fx

    pub acts-run_action :
        (acts fx + 1 ≤ acts (run_action b cb step w value page fx).effects)
        × (acts (run_action b cb step w value page fx).effects ≤ acts fx + 3)
    unfolding run_action
    acts-run_action = (
      acts-attempts-suc-ge max_retries cb step _ (b.dom_fingerprint page) (agent_action step value)
          page none fx,
      acts-attempts-le b (suc max_retries) cb step _ (b.dom_fingerprint page)
          (agent_action step value) page none fx,
    )

    pub run_action-IsVerified :
        EndIsVerified b step (b.dom_fingerprint page) (run_action b cb step w value page fx)
    unfolding run_action
    run_action-IsVerified =
        attempts-IsVerified b (suc max_retries) cb step _ (b.dom_fingerprint page)
          (agent_action step value) page none fx
