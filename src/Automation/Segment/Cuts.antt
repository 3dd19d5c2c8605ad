-- ===== src/Automation/Segment/Cuts.antt =====
-- The cuts of navigator/automation/explore/segment.py are in order, and cutting loses nothing.
use mathlib.Core.List.{append-nil}
use navigator_ai.Prelude.{
  ℕ, zero, suc, ◌-◌, ◌≤◌, ◌<◌, ◌≡◌, refl, sym, ap, ◌∙◌, inl, inr, String, Bool, false, List, [],
  ◌∷◌, ◌++◌, ◌&&◌, ltb, leb, length, take, drop, take-drop, length-take, length-drop, keep_if,
  Bool-cases, arith, ◌==◌, nat_eq, if◌then◌else◌,
}
use navigator_ai.Automation.Segment.{
  Rows, insert_cut, sorted_set, cuts_from, cut_indices, slices_from, or_whole, slices,
}

-- The bounds do not fall, from `a` on up to `n`.
abbrev Bounds : ℕ → ℕ → List ℕ → Type 0
Bounds a n [] = a ≤ n
Bounds a n (b ∷ bs) = (a ≤ b) × Bounds b n bs

Bounds-le : (a b n : ℕ) (bs : List ℕ) → a ≤ b → Bounds b n bs → Bounds a n bs
Bounds-le a b n [] h i = omega arith
Bounds-le a b n (c ∷ bs) h (i, k) = (omega arith, k)

Bounds-insert_cut :
    (a n c : ℕ) (cs : List ℕ) → a ≤ c → c ≤ n → Bounds a n cs → Bounds a n (insert_cut c cs)
unfolding insert_cut
Bounds-insert_cut a n c [] h k i = (h, k)
Bounds-insert_cut a n c (d ∷ ds) h k (i, j) = elim (Bool-cases (ltb c d)) [
  | inl e ↦ rw e (h, (ground (arith, e), j))
  | inr e ↦ rw e (elim (Bool-cases (c == d)) [
    | inl f ↦ rw f (i, j)
    | inr f ↦ rw f (i, Bounds-insert_cut d n c ds (ground (arith, e)) k j)
  ])
]

-- All cuts are within the bounds.
abbrev AllUpTo : ℕ → List ℕ → Type 0
AllUpTo n [] = Unit {0}
AllUpTo n (c ∷ cs) = (c ≤ n) × AllUpTo n cs

AllUpTo-keep_if : (n : ℕ) (cs : List ℕ) → AllUpTo n (keep_if (λ c. ltb 0 c && ltb c n) cs)
AllUpTo-keep_if n [] = tt
AllUpTo-keep_if n (c ∷ cs) = elim (Bool-cases (ltb 0 c && ltb c n)) [
  | inl e ↦ rw e (ground (arith, e), AllUpTo-keep_if n cs)
  | inr e ↦ rw e (AllUpTo-keep_if n cs)
]

Bounds-sorted_set : (n : ℕ) (cs : List ℕ) → AllUpTo n cs → Bounds 0 n (sorted_set cs)
unfolding sorted_set
Bounds-sorted_set n [] h = omega arith
Bounds-sorted_set n (c ∷ cs) (h, k) =
    Bounds-insert_cut 0 n c (sorted_set cs) (omega arith) h (Bounds-sorted_set n cs k)

abbrev pub flat {ℓ} : {A : Type ℓ} → List (List A) → List A
flat [] = []
flat (x ∷ xs) = x ++ flat xs

drop-nil : {A : Type 0} (n : ℕ) → drop {A = A} n [] ≡ []
drop-nil zero = refl
drop-nil (suc n) = refl

drop-length : {A : Type 0} (xs : List A) → drop (length xs) xs ≡ []
drop-length [] = refl
drop-length (x ∷ xs) = drop-length xs

drop-drop : {A : Type 0} (a b : ℕ) (xs : List A) → a ≤ b → drop (b - a) (drop a xs) ≡ drop b xs
drop-drop zero b xs h = ap (λ n. drop n xs) (omega arith)
drop-drop (suc a) zero xs h = absurd (omega arith)
drop-drop (suc a) (suc b) [] h = drop-nil (suc b - suc a)
drop-drop (suc a) (suc b) (x ∷ xs) h =
    ap (λ n. drop n (drop a xs)) (omega arith) ∙ drop-drop a b xs (omega arith)

piece :
    {A : Type 0} (a b : ℕ) (xs : List A) → a ≤ b → take (b - a) (drop a xs) ++ drop b xs ≡ drop a xs
piece a b xs h =
    ap (λ ys. take (b - a) (drop a xs) ++ ys) (sym (drop-drop a b xs h))
    ∙ take-drop (b - a) (drop a xs)

Bounds-end : (a n : ℕ) (bs : List ℕ) → Bounds a n bs → a ≤ n
Bounds-end a n [] h = h
Bounds-end a n (b ∷ bs) (h, k) = omega (arith, Bounds-end b n bs k)

leb-false : {a b : ℕ} → leb a b ≡ false → b < a
leb-false e = ground arith

module _ {Step : Type 0} where
  pub Bounds-cut_indices :
      (completes : String → Bool) (section_of : Step × String → String) (rows : Rows Step)
      → Bounds 0 (length rows) (cut_indices completes section_of rows)
  unfolding cut_indices
  Bounds-cut_indices completes section_of [] = omega arith
  Bounds-cut_indices completes section_of (row ∷ rows) =
      let cuts = cuts_from completes section_of 0 (row ∷ rows) (section_of row) [] in
      Bounds-sorted_set (length (row ∷ rows))
        (keep_if (λ c. ltb 0 c && ltb c (length (row ∷ rows))) cuts)
        (AllUpTo-keep_if (length (row ∷ rows)) cuts)

  -- One more bound: what follows it, and the slice before it.
  flat-bound :
      (rows : Rows Step) (a b : ℕ) (rest : List (Rows Step))
      → a ≤ b
      → flat rest ≡ drop b rows
      → flat (if leb b a then rest else take (b - a) (drop a rows) ∷ rest) ≡ drop a rows
  flat-bound rows a b rest h e = elim (Bool-cases (leb b a)) [
    | inl f ↦ rw f (e ∙ ap (λ n. drop n rows) (ground (arith, f)))
    | inr f ↦ rw f (ap (λ ys. take (b - a) (drop a rows) ++ ys) e ∙ piece a b rows h)
  ]

  flat-slices_from :
      (rows : Rows Step) (a : ℕ) (bs : List ℕ)
      → Bounds a (length rows) bs
      → flat (slices_from rows a (bs ++ length rows ∷ [])) ≡ drop a rows
  unfolding slices_from
  flat-slices_from rows a [] h = flat-bound rows a (length rows) [] h (sym (drop-length rows))
  flat-slices_from rows a (b ∷ bs) (h, k) =
      flat-bound rows a b (slices_from rows b (bs ++ length rows ∷ [])) h
        (flat-slices_from rows b bs k)

  flat-or_whole :
      (xs : List (Rows Step)) (rows : Rows Step) → flat xs ≡ rows → flat (or_whole xs rows) ≡ rows
  flat-or_whole [] rows e = append-nil rows
  flat-or_whole (x ∷ xs) rows e = e

  pub flat-slices :
      (rows : Rows Step) (cuts : List ℕ)
      → Bounds 0 (length rows) cuts
      → flat (slices rows cuts) ≡ rows
  unfolding slices
  flat-slices rows cuts h =
      flat-or_whole (slices_from rows 0 (cuts ++ length rows ∷ [])) rows
        (flat-slices_from rows 0 cuts h)

  -- A slice is never empty.
  abbrev pub NoneEmpty : List (Rows Step) → Type 0
  NoneEmpty [] = Unit {0}
  NoneEmpty (x ∷ xs) = (1 ≤ length x) × NoneEmpty xs

  NoneEmpty-slices_from :
      (rows : Rows Step) (a : ℕ) (bs : List ℕ)
      → Bounds a (length rows) bs
      → NoneEmpty (slices_from rows a (bs ++ length rows ∷ []))
  unfolding slices_from
  NoneEmpty-slices_from rows a [] h = elim (Bool-cases (leb (length rows) a)) [
    | inl f ↦ rw f tt
    | inr f ↦ rw f (
      omega (arith, length-take (length rows - a) (drop a rows), length-drop a rows, leb-false f),
      tt,
    )
  ]
  NoneEmpty-slices_from rows a (b ∷ bs) (h, k) = elim (Bool-cases (leb b a)) [
    | inl f ↦ rw f (NoneEmpty-slices_from rows b bs k)
    | inr f ↦ rw f (
      omega (
        arith,
        length-take (b - a) (drop a rows),
        length-drop a rows,
        leb-false f,
        Bounds-end b (length rows) bs k,
      ),
      NoneEmpty-slices_from rows b bs k,
    )
  ]

  pub NoneEmpty-slices :
      (rows : Rows Step) (cuts : List ℕ)
      → 1 ≤ length rows
      → Bounds 0 (length rows) cuts
      → NoneEmpty (slices rows cuts)
  unfolding slices
  NoneEmpty-slices rows cuts l h =
      whole (slices_from rows 0 (cuts ++ length rows ∷ [])) (NoneEmpty-slices_from rows 0 cuts h)
    where
      whole : (xs : List (Rows Step)) → NoneEmpty xs → NoneEmpty (or_whole xs rows)
      whole [] n = (l, tt)
      whole (x ∷ xs) n = n
