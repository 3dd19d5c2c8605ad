-- ===== src/Runtime/Orchestrator/Counts.antt =====
-- Counting what a plan of navigator/agent_runtime/orchestrator.py did.
use navigator_ai.Prelude.{
  ℕ, ◌+◌, ◌≡◌, refl, Bool, true, false, List, [], ◌∷◌, ◌++◌, arith, string_eq, if◌then◌else◌,
}
use navigator_ai.Runtime.Models
use navigator_ai.Runtime.Models.{TaskStatus, ActionStatus, AgentMode, AgentEventKind}
use navigator_ai.Runtime.Orchestrator.{
  PlanStep, Env, Effect, emit, act, acted_effects, started_effects, passed_effects, failed_effects,
}

abbrev pub acts_of : Effect → ℕ
acts_of (act step) = 1
acts_of _ = 0

-- How many actions were executed.
abbrev pub acts : List Effect → ℕ
acts [] = 0
acts (e ∷ fx) = acts_of e + acts fx

abbrev is_failure : Effect → Bool
is_failure (emit Models.verification_failed) = true
is_failure _ = false

abbrev failures_of : Effect → ℕ
failures_of e = if is_failure e then 1 else 0

-- How many verifications failed.
abbrev pub failures : List Effect → ℕ
failures [] = 0
failures (e ∷ fx) = failures_of e + failures fx

pub acts-append : (xs ys : List Effect) → acts (xs ++ ys) ≡ acts xs + acts ys
acts-append [] ys = omega arith
acts-append (e ∷ xs) ys = omega (arith, acts-append xs ys)

pub failures-append : (xs ys : List Effect) → failures (xs ++ ys) ≡ failures xs + failures ys
failures-append [] ys = omega arith
failures-append (e ∷ xs) ys = omega (arith, failures-append xs ys)

-- How many actions were executed after the first failed verification.
abbrev pub late_acts : List Effect → ℕ
late_acts [] = 0
late_acts (e ∷ fx) = let rest = late_acts fx in if is_failure e then acts fx else rest

pub late_acts-append : (xs ys : List Effect) → failures xs ≡ 0 → late_acts (xs ++ ys) ≡ late_acts ys
late_acts-append [] ys h = refl
late_acts-append (e ∷ xs) ys h = ground (arith, h, late_acts-append xs ys)

module _ (env : Env) where
  pub acts-acted_effects :
      (step : PlanStep) (logged : Bool) → acts (acted_effects env step logged) ≡ 1
  unfolding acted_effects
  acts-acted_effects step logged = ground arith

  pub failures-acted_effects :
      (step : PlanStep) (logged : Bool) → failures (acted_effects env step logged) ≡ 0
  unfolding acted_effects
  failures-acted_effects step logged = ground arith

  pub counts-started_effects :
      (step : PlanStep)
      → (acts (started_effects env step) ≡ 1) × (failures (started_effects env step) ≡ 0)
  unfolding started_effects
  counts-started_effects step = ground arith

  pub counts-passed_effects :
      (step : PlanStep)
      → (acts (passed_effects env step) ≡ 0) × (failures (passed_effects env step) ≡ 0)
  unfolding passed_effects
  counts-passed_effects step = ground arith

  pub counts-failed_effects :
      (shot stuck : Bool)
      → (acts (failed_effects env shot stuck) ≡ 0) × (failures (failed_effects env shot stuck) ≡ 1)
  unfolding failed_effects
  counts-failed_effects shot stuck = ground arith

  pub late_acts-failed_effects : (shot stuck : Bool) → late_acts (failed_effects env shot stuck) ≡ 0
  unfolding failed_effects
  late_acts-failed_effects shot stuck = ground arith

  pub late_acts-passed_effects : (step : PlanStep) → late_acts (passed_effects env step) ≡ 0
  unfolding passed_effects
  late_acts-passed_effects step = ground arith
