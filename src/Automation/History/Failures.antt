-- ===== src/Automation/History/Failures.antt =====
-- `_unrepaired_in` of navigator/automation/explore/history.py.
use mathlib.Core.Option.{some-injective}
use navigator_ai.Prelude.{
  ◌≤◌, ◌≡◌, ◌↔◌, refl, sym, ap, ◌∙◌, inl, inr, String, Bool, true, false, some, List, [], ◌∷◌, ◌&&◌,
  ◌||◌, not, beq_refl, ◌⊎◌, contains, Bool-cases, arith, ◌==◌, string_eq, eq_iff,
}
use navigator_ai.Automation.Episode.{StepAttempt, Group, has_key, by_key}
use navigator_ai.Automation.Episode.Groups.{last_for, find_last, groups_for, by_key-Partitions}
use navigator_ai.Automation.History.{unrepaired_of, unrepaired_in}

abbrev pub keys : List (String × String) → List String
keys [] = []
keys ((k, v) ∷ xs) = k ∷ keys xs

-- Some last attempt for the element is a failure.
abbrev FailedIn : String → List Group → Type 0
FailedIn k gs =
    (tool : String) × (a : StepAttempt) × (find_last k tool gs ≡ some a) × (a.ok ≡ false)

groups_for-find_last :
    (k tool : String) (a : StepAttempt) (gs : List Group)
    → find_last k tool gs ≡ some a
    → 1 ≤ groups_for k tool gs
groups_for-find_last k tool a [] e = cc
groups_for-find_last k tool a (g ∷ gs) e = ground (arith, groups_for-find_last k tool a gs)

-- Whether the first group adds its key, and what follows adds.
keys-unrepaired_of :
    (k : String) (g : Group) (gs : List Group)
    → contains (keys (unrepaired_of (g ∷ gs))) k ≡ (
        not (g.element_key == "") && not g.last.ok && (g.element_key == k)
        || contains (keys (unrepaired_of gs)) k)
unfolding unrepaired_of
keys-unrepaired_of k g gs = elim (Bool-cases (g.element_key == "")) [
  | inl e ↦ rw e refl
  | inr e ↦ rw e (elim (Bool-cases g.last.ok) [ inl f ↦ rw f refl | inr f ↦ rw f refl ])
]

nothing_listed : (k : String) → ¬ (contains (keys (unrepaired_of [])) k ≡ true)
unfolding unrepaired_of
nothing_listed k h = cc

listed-FailedIn :
    (k : String) (gs : List Group)
    → ((tool : String) → groups_for k tool gs ≤ 1)
    → contains (keys (unrepaired_of gs)) k ≡ true
    → FailedIn k gs
listed-FailedIn k [] u h = absurd (nothing_listed k h)
listed-FailedIn k (g ∷ gs) u h =
    by_first (Bool-cases (not (g.element_key == "") && not g.last.ok && (g.element_key == k)))
      (sym (keys-unrepaired_of k g gs) ∙ h) (listed-FailedIn k gs (λ tool. ground (arith, u tool)))
  where
    first : Bool
    first = not (g.element_key == "") && not g.last.ok && (g.element_key == k)

    later : FailedIn k gs → FailedIn k (g ∷ gs)
    later (tool, a, e, f) =
        let other : has_key k tool g ≡ false =
          ground (arith, u tool, groups_for-find_last k tool a gs e) in
        (tool, a, rw other e, f)

    by_first :
        (first ≡ true) ⊎ (first ≡ false)
        → (first || contains (keys (unrepaired_of gs)) k) ≡ true
        → (contains (keys (unrepaired_of gs)) k ≡ true → FailedIn k gs)
        → FailedIn k (g ∷ gs)
    by_first (inl x) e ih = (g.tool, g.last, ground (arith, x, beq_refl g.tool), ground (arith, x))
    by_first (inr x) e ih = later (ih (ground (arith, x, e)))

FailedIn-listed :
    (k : String) (gs : List Group)
    → (k == "") ≡ false
    → FailedIn k gs
    → contains (keys (unrepaired_of gs)) k ≡ true
FailedIn-listed k [] n (tool, a, e, f) = cc
FailedIn-listed k (g ∷ gs) n (tool, a, e, f) =
    keys-unrepaired_of k g gs
    ∙ by_key_test (Bool-cases (has_key k tool g)) (λ e'. FailedIn-listed k gs n (tool, a, e', f))
  where
    by_key_test :
        (has_key k tool g ≡ true) ⊎ (has_key k tool g ≡ false)
        → (find_last k tool gs ≡ some a → contains (keys (unrepaired_of gs)) k ≡ true)
        → (not (g.element_key == "") && not g.last.ok && (g.element_key == k)
            || contains (keys (unrepaired_of gs)) k)
          ≡ true
    by_key_test (inl x) ih =
        let found : find_last k tool (g ∷ gs) ≡ some g.last = rw x refl in
        let failed : g.last.ok ≡ false =
          ap (λ s. s.ok) (some-injective g.last a (sym found ∙ e)) ∙ f in
        ground (arith, x, n, failed, eq_iff g.element_key k)
    by_key_test (inr x) ih =
        let skipped : find_last k tool (g ∷ gs) ≡ find_last k tool gs = rw x refl in
        ground (arith, ih (sym skipped ∙ e))

-- An element is listed as an unrepaired failure of an episode exactly if, for some tool, the last
-- attempt on it with that tool failed; in particular an element whose last attempts all succeeded is not
-- listed, however often it failed before. This is for elements that have a key.
unrepaired_in-last_for :
    (k : String) (xs : List StepAttempt)
    → (k == "") ≡ false
    → (contains (keys (unrepaired_in xs)) k ≡ true)
      ↔ ((tool : String) × (a : StepAttempt) × (last_for k tool xs ≡ some a) × (a.ok ≡ false))
unfolding unrepaired_in
unrepaired_in-last_for k xs n = (
  (λ h.
      let (tool, a, e, f) = listed-FailedIn k (by_key xs) (λ t. (by_key-Partitions k t xs).0) h in
      (tool, a, sym (by_key-Partitions k tool xs).2 ∙ e, f)),
  (λ (tool, a, e, f).
      FailedIn-listed k (by_key xs) n (tool, a, (by_key-Partitions k tool xs).2 ∙ e, f)),
)
