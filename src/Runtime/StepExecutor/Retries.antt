-- ===== src/Runtime/StepExecutor/Retries.antt =====
-- The retry loop of navigator/agent_runtime/execution/demo_step_executor.py.
use navigator_ai.Prelude.{
  ℕ, zero, suc, ◌+◌, ◌≤◌, ◌≡◌, ◌≢◌, refl, String, true, Option, some, List, [], ◌∷◌, ◌++◌, arith,
}
use navigator_ai.Runtime.Models
use navigator_ai.Runtime.Models.{
  DemoStep, DemoStepStatus, AgentEventKind, AgentAction, StructuredError,
}
use navigator_ai.Runtime.Watchdog.{clear_failure, record_state}
use navigator_ai.Runtime.StepExecutor.Defs.{
  World, Browser, Effect, emit, act, speak, Callbacks, Round, complete, again, give_up, Ended,
  round, check_round, recover, attempts, apply_recovery, error_speech, after_round,
}

abbrev pub acts_of : Effect → ℕ
acts_of (act a) = 1
acts_of _ = 0

abbrev pub speeches_of : Effect → ℕ
speeches_of (speak t) = 1
speeches_of _ = 0

-- How often the browser acts.
abbrev pub acts : List Effect → ℕ
acts [] = 0
acts (e ∷ fx) = acts_of e + acts fx

-- How often the narration of a step is spoken.
abbrev pub speeches : List Effect → ℕ
speeches [] = 0
speeches (e ∷ fx) = speeches_of e + speeches fx

pub acts-append : (xs ys : List Effect) → acts (xs ++ ys) ≡ acts xs + acts ys
acts-append [] ys = omega arith
acts-append (e ∷ xs) ys = omega (arith, acts-append xs ys)

pub speeches-append : (xs ys : List Effect) → speeches (xs ++ ys) ≡ speeches xs + speeches ys
speeches-append [] ys = omega arith
speeches-append (e ∷ xs) ys = omega (arith, speeches-append xs ys)

module _ (b : Browser) where
  open b use {Page, execute_action, wait_settled, verify_step, url}

  abbrev pub effects_of : Round b → List Effect
  effects_of (complete w p fx) = fx
  effects_of (again w p e fx) = fx
  effects_of (give_up w p e fx) = fx

  -- One round acts once.
  pub acts-round :
      (cb : Callbacks) (step : DemoStep) (w : World) (fp : String) (a : AgentAction) (page : Page)
      → acts (effects_of (round b cb step w fp a page)) ≡ 1
  unfolding round check_round
  acts-round cb step w fp a page = ground arith

  -- In the failed part after the loop nothing is done but a message to the visitor.
  pub acts-recover :
      (cb : Callbacks) (step : DemoStep) (w : World) (page : Page) (last : Option StructuredError)
      (fx : List Effect)
      → acts (recover b cb step w page last fx).effects ≡ acts fx
  unfolding recover error_speech
  acts-recover cb step w page last fx =
      ground (arith, acts-append fx (emit Models.demo_step_failed ∷ error_speech b cb last))

  pub speeches-recover :
      (cb : Callbacks) (step : DemoStep) (w : World) (page : Page) (last : Option StructuredError)
      (fx : List Effect)
      → speeches (recover b cb step w page last fx).effects ≡ speeches fx
  unfolding recover error_speech
  speeches-recover cb step w page last fx =
      ground (arith, speeches-append fx (emit Models.demo_step_failed ∷ error_speech b cb last))

  acts-after_round-le :
      (left : ℕ) (cb : Callbacks) (step : DemoStep) (fx : List Effect)
      (rest : World → Page → Option StructuredError → List Effect → Ended b)
      → ((w : World) (p : Page) (e : Option StructuredError) (gx : List Effect)
          → acts (rest w p e gx).effects ≤ acts gx + left)
      → (r : Round b) → acts (effects_of r) ≡ 1
      → acts (after_round b cb step fx rest r).effects ≤ acts fx + suc left
  unfolding after_round
  acts-after_round-le left cb step fx rest h (complete w p done) one =
      omega (arith, acts-append fx done)
  acts-after_round-le left cb step fx rest h (again w p e done) one =
      omega (arith, acts-append fx done, h w p (some e) (fx ++ done))
  acts-after_round-le left cb step fx rest h (give_up w p e done) one =
      omega (arith, acts-append fx done, acts-recover cb step w p (some e) (fx ++ done))

  -- The loop acts at most once for each round that it has left.
  pub acts-attempts-le :
      (left : ℕ) (cb : Callbacks) (step : DemoStep) (w : World) (fp : String) (a : AgentAction)
      (page : Page) (last : Option StructuredError) (fx : List Effect)
      → acts (attempts b left cb step w fp a page last fx).effects ≤ acts fx + left
  unfolding attempts
  acts-attempts-le zero cb step w fp a page last fx =
      omega (arith, acts-recover cb step w page last fx)
  acts-attempts-le (suc left) cb step w fp a page last fx =
      acts-after_round-le left cb step fx _
        (λ w' p e gx. acts-attempts-le left cb step w' fp a p e gx) (round b cb step w fp a page)
        (acts-round cb step w fp a page)

  -- The page from which the verification was read, and what it said.
  abbrev pub IsVerified : DemoStep → String → World → Page → Type 0
  IsVerified step fp w p =
      (q : Page) × ((verify_step q step.verification fp).0 ≡ true)
      × ((verify_step q step.verification fp).2 ≡ p)
      × (w.url ≡ url p)
      × (w.watchdog.consecutive_failures ≡ 0)

  abbrev RoundIsVerified : DemoStep → String → Round b → Type 0
  RoundIsVerified step fp (complete w p fx) = IsVerified step fp w p
  RoundIsVerified step fp _ = Unit

  round-IsVerified :
      (cb : Callbacks) (step : DemoStep) (w : World) (fp : String) (a : AgentAction) (page : Page)
      (r : Round b)
      → round b cb step w fp a page ≡ r
      → RoundIsVerified step fp r
  unfolding round check_round clear_failure record_state
  round-IsVerified cb step w fp a page (complete w' p fx) h = (
    (wait_settled (execute_action page w.page_id a).1).1,
    ground arith,
    ground arith,
    ground arith,
    ground arith,
  )
  round-IsVerified cb step w fp a page (again w' p e fx) h = tt
  round-IsVerified cb step w fp a page (give_up w' p e fx) h = tt

  abbrev pub EndIsVerified : DemoStep → String → Ended b → Type 0
  EndIsVerified step fp e = e.status ≡ DemoStepStatus.complete → IsVerified step fp e.world e.page

  pub recover-not_complete :
      (cb : Callbacks) (step : DemoStep) (w : World) (page : Page) (last : Option StructuredError)
      (fx : List Effect)
      → (recover b cb step w page last fx).status ≢ DemoStepStatus.complete
  unfolding recover apply_recovery
  recover-not_complete cb step w page last fx h = ground arith

  after_round-IsVerified :
      (cb : Callbacks) (step : DemoStep) (fp : String) (fx : List Effect)
      (rest : World → Page → Option StructuredError → List Effect → Ended b)
      → ((w : World) (p : Page) (e : Option StructuredError) (gx : List Effect)
          → EndIsVerified step fp (rest w p e gx))
      → (r : Round b) → RoundIsVerified step fp r
      → EndIsVerified step fp (after_round b cb step fx rest r)
  unfolding after_round
  after_round-IsVerified cb step fp fx rest h (complete w p done) v s = v
  after_round-IsVerified cb step fp fx rest h (again w p e done) v s = h w p (some e) (fx ++ done) s
  after_round-IsVerified cb step fp fx rest h (give_up w p e done) v s =
      absurd (recover-not_complete cb step w p (some e) (fx ++ done) s)

  pub attempts-IsVerified :
      (left : ℕ) (cb : Callbacks) (step : DemoStep) (w : World) (fp : String) (a : AgentAction)
      (page : Page) (last : Option StructuredError) (fx : List Effect)
      → EndIsVerified step fp (attempts b left cb step w fp a page last fx)
  unfolding attempts
  attempts-IsVerified zero cb step w fp a page last fx =
      λ s. absurd (recover-not_complete cb step w page last fx s)
  attempts-IsVerified (suc left) cb step w fp a page last fx =
      after_round-IsVerified cb step fp fx _
        (λ w' p e gx. attempts-IsVerified left cb step w' fp a p e gx) (round b cb step w fp a page)
        (round-IsVerified cb step w fp a page (round b cb step w fp a page) refl)
