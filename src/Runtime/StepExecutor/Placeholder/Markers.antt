-- ===== src/Runtime/StepExecutor/Placeholder/Markers.antt =====
-- Texts with placeholders, as `_resolve_action_value` of
-- navigator/agent_runtime/execution/demo_step_executor.py reads them.
use navigator_ai.Prelude.{
  ℕ, ◌-◌, ◌≤◌, ◌≡◌, refl, sym, ap, ◌∙◌, true, false, ◌&&◌, not, none, some, [], ◌∷◌, ◌++◌, ◌==◌,
  nat_eq, text_eq, Text, is_space, strip_left, length, take, if◌then◌else◌, arith, length-append,
}
use mathlib.Core.List.{append_assoc, append-nil}
use navigator_ai.Runtime.Interaction.{SessionContext, is_empty}
use navigator_ai.Runtime.StepExecutor.Placeholder.{
  starts_name, in_name, name_run, closing, match_at, group_0, replacement, substitute,
  resolve_action_value,
}
use navigator_ai.Runtime.StepExecutor.Placeholder.Laws.{substitute-fuel}

abbrev pub AllSpace : Text → Type 0
AllSpace [] = Unit
AllSpace (c ∷ s) = (is_space c ≡ true) × AllSpace s

abbrev AllInName : Text → Type 0
AllInName [] = Unit
AllInName (c ∷ s) = (in_name c ≡ true) × AllInName s

-- `[A-Za-z_][A-Za-z0-9_]*`
abbrev pub IsName : Text → Type 0
IsName [] = ⊥
IsName (c ∷ s) = (starts_name c ≡ true) × AllInName s

abbrev pub NoBrace : Text → Type 0
NoBrace [] = Unit
NoBrace (c ∷ s) = ((c == b'{') ≡ false) × NoBrace s

-- `{{`, white space, the name, white space and `}}`.
abbrev pub marker : Text → Text → Text → Text
marker left name right = b'{' ∷ b'{' ∷ (left ++ (name ++ (right ++ b'}' ∷ b'}' ∷ [])))

strip_left-append :
    (sp t : Text) (c : ℕ) → AllSpace sp → is_space c ≡ false → strip_left (sp ++ (c ∷ t)) ≡ c ∷ t
unfolding strip_left
strip_left-append [] t c a n = rw n refl
strip_left-append (d ∷ sp) t c a n = rw a.0 (strip_left-append sp t c a.1 n)

not_space_of_name : (c : ℕ) → starts_name c ≡ true → is_space c ≡ false
unfolding starts_name is_space
not_space_of_name c h = ground arith

not_name_of_space : (c : ℕ) → is_space c ≡ true → in_name c ≡ false
unfolding in_name is_space
not_name_of_space c h = ground arith

in_name_of_starts_name : (c : ℕ) → starts_name c ≡ true → in_name c ≡ true
unfolding in_name
in_name_of_starts_name c h = ground arith

name_run-stop : (c : ℕ) (t : Text) → in_name c ≡ false → name_run (c ∷ t) ≡ ([], c ∷ t)
unfolding name_run
name_run-stop c t n = rw n refl

name_run-spaces :
    (right after : Text)
    → AllSpace right
    → name_run (right ++ b'}' ∷ b'}' ∷ after) ≡ ([], right ++ b'}' ∷ b'}' ∷ after)
unfolding in_name
name_run-spaces [] after a = name_run-stop b'}' (b'}' ∷ after) refl
name_run-spaces (c ∷ right) after a =
    name_run-stop c (right ++ b'}' ∷ b'}' ∷ after) (not_name_of_space c a.0)

name_run-append :
    (name t : Text) → AllInName name → name_run t ≡ ([], t) → name_run (name ++ t) ≡ (name, t)
unfolding name_run
name_run-append [] t a n = n
name_run-append (c ∷ name) t a n = rw (a.0, name_run-append name t a.1 n) refl

match_at-marker :
    (left name right after : Text)
    → AllSpace left
    → IsName name
    → AllSpace right
    → match_at (b'{' ∷ b'{' ∷ (left ++ (name ++ (right ++ b'}' ∷ b'}' ∷ after))))
      ≡ some (name, after)
unfolding match_at closing is_space
match_at-marker left [] right after l n r = absurd n
match_at-marker left (c ∷ name) right after l n r =
    let rest : Text = right ++ b'}' ∷ b'}' ∷ after in
    let first = strip_left-append left (name ++ rest) c l (not_space_of_name c n.0) in
    let run =
      name_run-append (c ∷ name) rest (in_name_of_starts_name c n.0, n.1)
        (name_run-spaces right after r) in
    let last = strip_left-append right (b'}' ∷ after) b'}' r refl in
    ground (arith, first, run, last, n.0)

match_at-no_brace : (c : ℕ) (s : Text) → (c == b'{') ≡ false → match_at (c ∷ s) ≡ none
unfolding match_at
match_at-no_brace c [] h = refl
match_at-no_brace c (d ∷ s) h = rw h refl

take-append : (m t : Text) → take (length m) (m ++ t) ≡ m
take-append [] t = refl
take-append (c ∷ m) t = ap (λ (x : Text). c ∷ x) (take-append m t)

marker-append :
    (left name right after : Text)
    → marker left name right ++ after
      ≡ b'{' ∷ b'{' ∷ (left ++ (name ++ (right ++ b'}' ∷ b'}' ∷ after)))
marker-append left name right after =
    let braces : Text = b'}' ∷ b'}' ∷ [] in
    ap (λ (x : Text). b'{' ∷ b'{' ∷ x)
      (append_assoc left (name ++ (right ++ braces)) after
        ∙ (ap (λ (x : Text). left ++ x) (append_assoc name (right ++ braces) after)
            ∙ ap (λ (x : Text). left ++ (name ++ x)) (append_assoc right braces after)))

-- The text of the match is the marker.
group_0-append : (m after : Text) → group_0 (m ++ after) after ≡ m
group_0-append m after =
    let n : length (m ++ after) - length after ≡ length m =
      omega (arith, length-append {0} m after) in
    ap (λ k. take k (m ++ after)) n ∙ take-append m after

module _ (sc : SessionContext) (ctx : sc.Ctx) (resolved input_name : Text) where
  abbrev subst_in : Text → Text
  subst_in s = substitute sc (length s) ctx resolved input_name s

  substitute-cons : (c : ℕ) (s : Text) → (c == b'{') ≡ false → subst_in (c ∷ s) ≡ c ∷ subst_in s
  unfolding substitute
  substitute-cons c s h = rw (substitute, match_at-no_brace c s h) refl

  substitute-before :
      (before s : Text) → NoBrace before → subst_in (before ++ s) ≡ before ++ subst_in s
  substitute-before [] s n = refl
  substitute-before (c ∷ before) s n =
      substitute-cons c (before ++ s) n.0
      ∙ ap (λ (x : Text). c ∷ x) (substitute-before before s n.1)

  substitute-match :
      (c : ℕ) (s key rest : Text)
      → match_at (c ∷ s) ≡ some (key, rest)
      → length rest ≤ length s
      → subst_in (c ∷ s)
        ≡ replacement sc ctx resolved input_name key (group_0 (c ∷ s) rest) ++ subst_in rest
  unfolding substitute
  substitute-match c s key rest m h =
      rw (substitute, m)
        (ap (λ (x : Text). replacement sc ctx resolved input_name key (group_0 (c ∷ s) rest) ++ x)
          (substitute-fuel sc ctx resolved input_name (length s) (length rest) rest h
            (omega arith)))

  substitute-marker :
      (left name right after : Text)
      → AllSpace left
      → IsName name
      → AllSpace right
      → subst_in (marker left name right ++ after)
        ≡ replacement sc ctx resolved input_name name (marker left name right) ++ subst_in after
  substitute-marker left name right after l n r =
      let m = marker left name right in
      let matched : match_at (m ++ after) ≡ some (name, after) =
        ap match_at (marker-append left name right after)
        ∙ match_at-marker left name right after l n r in
      let body : Text = b'{' ∷ (left ++ (name ++ (right ++ b'}' ∷ b'}' ∷ []))) in
      substitute-match b'{' (body ++ after) name after matched
        (omega (arith, length-append {0} body after))
      ∙ ap (λ (x : Text). replacement sc ctx resolved input_name name x ++ subst_in after)
          (group_0-append m after)

  -- The first placeholder of a value, which is a name in double braces with any white space round
  -- it, is replaced by the input that was just resolved, if it has that input's name and the input
  -- is not empty, and else by the session's value for the name, with the placeholder itself as
  -- the default. The text before it is kept, and the text after it is treated in the same way. A
  -- value without an opening brace is kept as it is.
  resolve_action_value-marker :
      (before left name right after : Text)
      → NoBrace before
      → AllSpace left
      → IsName name
      → AllSpace right
      → (resolve_action_value sc ctx resolved input_name
            (before ++ (marker left name right ++ after))
          ≡ before
            ++ ((if name == input_name && not (is_empty resolved)
                  then resolved
                  else sc.get ctx name (marker left name right))
                ++ resolve_action_value sc ctx resolved input_name after))
        × (resolve_action_value sc ctx resolved input_name before ≡ before)
  unfolding resolve_action_value replacement substitute
  resolve_action_value-marker before left name right after b l n r = (
    substitute-before before (marker left name right ++ after) b
        ∙ ap (λ (x : Text). before ++ x) (substitute-marker left name right after l n r),
    ap subst_in (sym (append-nil before)) ∙ (substitute-before before [] b ∙ append-nil before),
  )
