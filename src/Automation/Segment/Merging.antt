-- ===== src/Automation/Segment/Merging.antt =====
-- Merging short slices in navigator/automation/explore/segment.py.
use mathlib.Core.List.{reverse, reverse-cons, append-nil, append_assoc}
use navigator_ai.Prelude.{
  ◌≤◌, ◌≡◌, ◌⊎◌, refl, sym, ap, ◌∙◌, subst, inl, inr, true, false, List, [], ◌∷◌, ◌++◌, leb, leb→le,
  length, length-append, Bool-cases, arith,
}
use navigator_ai.Automation.Segment.{Rows, is_single, merge_slice, merge_slices, merge_singletons}
use navigator_ai.Automation.Segment.Cuts.{flat, NoneEmpty}

flat-append : {A : Type 0} (xs ys : List (List A)) → flat (xs ++ ys) ≡ flat xs ++ flat ys
flat-append [] ys = refl
flat-append (x ∷ xs) ys =
    ap (λ zs. x ++ zs) (flat-append xs ys) ∙ sym (append_assoc x (flat xs) (flat ys))

module _ {Step : Type 0} where
  -- What is merged so far, from the first row on.
  abbrev merged : List (Rows Step) → Rows Step
  merged [] = []
  merged (x ∷ out) = merged out ++ x

  merged-merge_slice :
      (slice : Rows Step) (out : List (Rows Step))
      → merged (merge_slice slice out) ≡ merged out ++ slice
  unfolding merge_slice
  merged-merge_slice slice [] = refl
  merged-merge_slice slice (last ∷ out) = elim (Bool-cases (is_single slice)) [
    | inl e ↦ rw e (sym (append_assoc (merged out) last slice))
    | inr e ↦ rw e (elim (Bool-cases (is_single last)) [
      | inl f ↦ rw f (sym (append_assoc (merged out) last slice))
      | inr f ↦ rw f refl
    ])
  ]

  merged-merge_slices :
      (xs out : List (Rows Step)) → merged (merge_slices xs out) ≡ merged out ++ flat xs
  unfolding merge_slices
  merged-merge_slices [] out = sym (append-nil (merged out))
  merged-merge_slices (x ∷ xs) out =
      merged-merge_slices xs (merge_slice x out)
      ∙ (ap (λ ys. ys ++ flat xs) (merged-merge_slice x out)
          ∙ append_assoc (merged out) x (flat xs))

  flat-reverse : (out : List (Rows Step)) → flat (reverse out) ≡ merged out
  flat-reverse [] = refl
  flat-reverse (x ∷ out) =
      ap flat (reverse-cons x out)
      ∙ (flat-append (reverse out) (x ∷ [])
          ∙ (ap (λ ys. ys ++ (x ++ [])) (flat-reverse out)
              ∙ ap (λ ys. merged out ++ ys) (append-nil x)))

  pub flat-merge_singletons : (xs : List (Rows Step)) → flat (merge_singletons xs) ≡ flat xs
  unfolding merge_singletons
  flat-merge_singletons xs = elim (Bool-cases (leb (length xs) 1)) [
    | inl e ↦ rw e refl
    | inr e ↦ rw e (flat-reverse (merge_slices xs []) ∙ merged-merge_slices xs [])
  ]

  -- Every segment has at least two rows.
  abbrev pub NoneSingle : List (Rows Step) → Type 0
  NoneSingle [] = Unit {0}
  NoneSingle (x ∷ xs) = (2 ≤ length x) × NoneSingle xs

  -- A single row can only be the first segment, while it is the only one.
  Settled : List (Rows Step) → Type 0
  Settled [] = Unit {0}
  Settled (x ∷ out) = (1 ≤ length x) × NoneSingle out × ((2 ≤ length x) ⊎ (out ≡ []))

  single-length : (x : Rows Step) → is_single x ≡ true → length x ≡ 1
  single-length [] e = cc
  single-length (r ∷ []) e = refl
  single-length (r ∷ q ∷ x) e = cc

  not_single-length : (x : Rows Step) → is_single x ≡ false → 1 ≤ length x → 2 ≤ length x
  not_single-length [] e h = omega arith
  not_single-length (r ∷ []) e h = cc
  not_single-length (r ∷ q ∷ x) e h = omega arith

  Settled-merge_slice :
      (slice : Rows Step) (out : List (Rows Step))
      → 1 ≤ length slice
      → Settled out
      → Settled (merge_slice slice out)
  unfolding merge_slice Settled
  Settled-merge_slice slice [] h s = (h, tt, inr refl)
  Settled-merge_slice slice (last ∷ out) h (l, n, t) = elim (Bool-cases (is_single slice)) [
    | inl e ↦
        rw e (
          omega (arith, length-append last slice),
          n,
          inl (omega (arith, length-append last slice)),
        )
    | inr e ↦ rw e (elim (Bool-cases (is_single last)) [
      | inl f ↦ rw f (
        omega (arith, length-append last slice),
        n,
        inl (omega (arith, length-append last slice)),
      )
      | inr f ↦ rw f (h, (not_single-length last f l, n), inl (not_single-length slice e h))
    ])
  ]

  Settled-merge_slices :
      (xs out : List (Rows Step)) → NoneEmpty xs → Settled out → Settled (merge_slices xs out)
  unfolding merge_slices
  Settled-merge_slices [] out n s = s
  Settled-merge_slices (x ∷ xs) out (h, n) s =
      Settled-merge_slices xs (merge_slice x out) n (Settled-merge_slice x out h s)

  NoneSingle-append :
      (xs ys : List (Rows Step)) → NoneSingle xs → NoneSingle ys → NoneSingle (xs ++ ys)
  NoneSingle-append [] ys n m = m
  NoneSingle-append (x ∷ xs) ys (h, n) m = (h, NoneSingle-append xs ys n m)

  NoneSingle-reverse : (xs : List (Rows Step)) → NoneSingle xs → NoneSingle (reverse xs)
  NoneSingle-reverse [] n = tt
  NoneSingle-reverse (x ∷ xs) (h, n) =
      subst NoneSingle (sym (reverse-cons x xs))
        (NoneSingle-append (reverse xs) (x ∷ []) (NoneSingle-reverse xs n) (h, tt))

  Settled-NoneSingle :
      (out : List (Rows Step)) → 2 ≤ length (merged out) → Settled out → NoneSingle out
  unfolding Settled
  Settled-NoneSingle [] h s = tt
  Settled-NoneSingle (x ∷ out) h (l, n, inl t) = (t, n)
  Settled-NoneSingle (x ∷ out) h (l, n, inr e) =
      (omega (arith, h, length-append (merged out) x, ap (λ o. length (merged o)) e), n)

  nothing_yet : (out : List (Rows Step)) → out ≡ [] → Settled out
  unfolding Settled
  nothing_yet [] e = tt
  nothing_yet (x ∷ out) e = cc

  pub NoneSingle-merge_singletons :
      (xs : List (Rows Step))
      → NoneEmpty xs
      → 2 ≤ length (flat xs)
      → NoneSingle (merge_singletons xs)
  unfolding merge_singletons
  NoneSingle-merge_singletons xs n h = elim (Bool-cases (leb (length xs) 1)) [
    | inl e ↦ rw e (few xs h e)
    | inr e ↦ rw e (
        NoneSingle-reverse (merge_slices xs []) (
          Settled-NoneSingle (merge_slices xs [])
            (subst (λ ys. 2 ≤ length ys) (sym (merged-merge_slices xs [])) h)
            (Settled-merge_slices xs [] n (nothing_yet [] refl))))
  ]
    where
      few :
          (ys : List (Rows Step)) → 2 ≤ length (flat ys) → leb (length ys) 1 ≡ true → NoneSingle ys
      few [] k e = tt
      few (y ∷ []) k e = (omega (arith, k, ap length (append-nil y)), tt)
      few (y ∷ z ∷ ys) k e = absurd (omega (arith, leb→le (length (y ∷ z ∷ ys)) 1 e))
