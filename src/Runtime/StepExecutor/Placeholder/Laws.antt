-- ===== src/Runtime/StepExecutor/Placeholder/Laws.antt =====
-- What `_resolve_action_value` of navigator/agent_runtime/execution/demo_step_executor.py
-- substitutes.
use navigator_ai.Prelude.{
  ℕ, zero, suc, ◌≤◌, ◌≡◌, refl, ap, ◌&&◌, Option, none, some, [], ◌∷◌, ◌++◌, ◌==◌, nat_eq, text_eq,
  Text, strip_left, length, arith, Bool-cases, inl, inr,
}
use navigator_ai.Runtime.Interaction.{SessionContext}
use navigator_ai.Runtime.StepExecutor.Placeholder.{
  starts_name, name_run, closing, named, match_at, group_0, replacement, substitute,
}

length-strip_left-le : (s : Text) → length (strip_left s) ≤ length s
unfolding strip_left
length-strip_left-le [] = omega arith
length-strip_left-le (c ∷ s) = ground (arith, length-strip_left-le s)

length-name_run-le : (s : Text) → length (name_run s).1 ≤ length s
unfolding name_run
length-name_run-le [] = omega arith
length-name_run-le (c ∷ s) = ground (arith, length-name_run-le s)

-- What follows a match.
abbrev Leaves : ℕ → Option (Text × Text) → Type 0
Leaves n none = Unit
Leaves n (some m) = length m.1 ≤ n

closing-Leaves : (key s : Text) → Leaves (length s) (closing key s)
unfolding closing
closing-Leaves key [] = tt
closing-Leaves key (c ∷ []) = tt
closing-Leaves key (c ∷ d ∷ s) = elim (Bool-cases (c == b'}' && d == b'}')) [
  | inl e ↦ rw e (omega arith)
  | inr e ↦ rw e tt
]

Leaves-le : (n m : ℕ) (o : Option (Text × Text)) → n ≤ m → Leaves n o → Leaves m o
Leaves-le n m none h l = tt
Leaves-le n m (some x) h l = omega (arith, l)

named-Leaves : (s : Text) → Leaves (length s) (named s)
unfolding named
named-Leaves [] = tt
named-Leaves (c ∷ s) = elim (Bool-cases (starts_name c)) [
  | inl e ↦
      let rest = (name_run (c ∷ s)).1 in
      rw e (
        Leaves-le (length (strip_left rest)) (length (c ∷ s)) _
          (omega (arith, length-strip_left-le rest, length-name_run-le (c ∷ s)))
          (closing-Leaves (name_run (c ∷ s)).0 (strip_left rest)))
  | inr e ↦ rw e tt
]

match_at-Leaves : (c : ℕ) (s : Text) → Leaves (length s) (match_at (c ∷ s))
unfolding match_at
match_at-Leaves c [] = tt
match_at-Leaves c (d ∷ s) = elim (Bool-cases (c == b'{' && d == b'{')) [
  | inl e ↦ rw e (
      Leaves-le (length (strip_left s)) (length (d ∷ s)) _ (omega (arith, length-strip_left-le s))
        (named-Leaves (strip_left s)))
  | inr e ↦ rw e tt
]

module _ (sc : SessionContext) (ctx : sc.Ctx) (resolved input_name : Text) where
  -- The length of the text is enough fuel: with that much or more, the result is the same.
  pub substitute-fuel :
      (f g : ℕ) (s : Text)
      → length s ≤ f
      → length s ≤ g
      → substitute sc f ctx resolved input_name s ≡ substitute sc g ctx resolved input_name s
  unfolding substitute
  substitute-fuel zero zero s hf hg = refl
  substitute-fuel zero (suc g) [] hf hg = refl
  substitute-fuel zero (suc g) (c ∷ s) hf hg = absurd (omega (arith, hf))
  substitute-fuel (suc f) zero [] hf hg = refl
  substitute-fuel (suc f) zero (c ∷ s) hf hg = absurd (omega (arith, hg))
  substitute-fuel (suc f) (suc g) [] hf hg = refl
  substitute-fuel (suc f) (suc g) (c ∷ s) hf hg =
      by_match (λ t h. substitute-fuel f g t (omega (arith, hf, h)) (omega (arith, hg, h)))
        (match_at (c ∷ s)) (match_at-Leaves c s)
    where
      by_match :
          ((t : Text)
            → length t ≤ length s
            → substitute sc f ctx resolved input_name t ≡ substitute sc g ctx resolved input_name t)
          → (m : Option (Text × Text)) → Leaves (length s) m
          → elim m [
            | none ↦ c ∷ substitute sc f ctx resolved input_name s
            | some (key, rest) ↦
                replacement sc ctx resolved input_name key (group_0 (c ∷ s) rest)
                ++ substitute sc f ctx resolved input_name rest
          ]
            ≡ elim m [
              | none ↦ c ∷ substitute sc g ctx resolved input_name s
              | some (key, rest) ↦
                  replacement sc ctx resolved input_name key (group_0 (c ∷ s) rest)
                  ++ substitute sc g ctx resolved input_name rest
            ]
      by_match ih none l = ap (λ (t : Text). c ∷ t) (ih s (omega arith))
      by_match ih (some (key, rest)) l =
          ap (λ (t : Text). replacement sc ctx resolved input_name key (group_0 (c ∷ s) rest) ++ t)
            (ih rest l)
