-- ===== src/Runtime/Pace.antt =====
-- Events on one clock that keep a distance, for the rate limits of navigator/agent_runtime.
use navigator_ai.Prelude.{ℕ, ◌+◌, ◌≤◌, List, [], ◌∷◌, arith}

-- Newest first: each comes at least `gap` after the one before it, and at least `gap` before
-- `late`.
abbrev pub IsPaced : ℕ → ℕ → List ℕ → Type 0
IsPaced gap late [] = Unit
IsPaced gap late (t ∷ ts) = (t + gap ≤ late) × IsPaced gap t ts

pub IsPaced-le : (gap a b : ℕ) (ts : List ℕ) → a ≤ b → IsPaced gap a ts → IsPaced gap b ts
IsPaced-le gap a b [] h p = tt
IsPaced-le gap a b (t ∷ ts) h p = (omega (arith, p.0), p.1)
