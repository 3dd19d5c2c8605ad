-- ===== src/Automation/Segment/Whole.antt =====
-- navigator/automation/explore/segment.py from the recorded steps to the segments.
use navigator_ai.Prelude.{
  ℕ, zero, suc, ◌-◌, ◌≤◌, ◌≡◌, refl, ap, ◌∙◌, String, Bool, List, [], ◌∷◌, ◌++◌, map, take, length,
  arith,
}
use navigator_ai.Automation.Segment.{padded, cut_indices, slices, segment_steps}
use navigator_ai.Automation.Segment.Cuts.{flat, Bounds-cut_indices, flat-slices, NoneEmpty-slices}
use navigator_ai.Automation.Segment.Merging.{
  flat-merge_singletons, NoneSingle, NoneSingle-merge_singletons,
}

abbrev pub blanks : ℕ → List String
blanks zero = []
blanks (suc n) = "" ∷ blanks n

module _ {Step : Type 0} where
  length-padded :
      (steps : List Step) (labels : List String) → length (padded steps labels) ≡ length steps
  unfolding padded
  length-padded [] labels = refl
  length-padded (s ∷ ss) [] = ap (λ n. suc n) (length-padded ss [])
  length-padded (s ∷ ss) (l ∷ ls) = ap (λ n. suc n) (length-padded ss ls)

  steps-padded :
      (steps : List Step) (labels : List String) → map (λ row. row.0) (padded steps labels) ≡ steps
  unfolding padded
  steps-padded [] labels = refl
  steps-padded (s ∷ ss) [] = ap (λ xs. s ∷ xs) (steps-padded ss [])
  steps-padded (s ∷ ss) (l ∷ ls) = ap (λ xs. s ∷ xs) (steps-padded ss ls)

  labels-padded_blank :
      (steps : List Step) → map (λ row. row.1) (padded steps []) ≡ blanks (length steps)
  unfolding padded
  labels-padded_blank [] = refl
  labels-padded_blank (s ∷ ss) = ap (λ xs. "" ∷ xs) (labels-padded_blank ss)

  labels-padded :
      (steps : List Step) (labels : List String)
      → map (λ row. row.1) (padded steps labels)
        ≡ take (length steps) labels ++ blanks (length steps - length labels)
  unfolding padded
  labels-padded [] labels =
      let none_missing : 0 ≡ 0 - length labels = omega arith in ap blanks none_missing
  labels-padded (s ∷ ss) [] =
      let all_missing : length (s ∷ ss) ≡ length (s ∷ ss) - 0 = omega arith in
      labels-padded_blank (s ∷ ss) ∙ ap blanks all_missing
  labels-padded (s ∷ ss) (l ∷ ls) =
      let missing : length ss - length ls ≡ suc (length ss) - suc (length ls) = omega arith in
      ap (λ xs. l ∷ xs) (labels-padded ss ls)
      ∙ ap (λ n. l ∷ take (length ss) ls ++ blanks n) missing

  flat-padded :
      (completes : String → Bool) (section_of : Step × String → String) (steps : List Step)
      (labels : List String)
      → flat (segment_steps completes section_of steps labels) ≡ padded steps labels
  unfolding segment_steps padded
  flat-padded completes section_of [] labels = refl
  flat-padded completes section_of (s ∷ ss) labels =
      let rows = padded (s ∷ ss) labels in
      let cuts = cut_indices completes section_of rows in
      flat-merge_singletons (slices rows cuts)
      ∙ flat-slices rows cuts (Bounds-cut_indices completes section_of rows)

  -- Whatever the labels and sections are, the steps of the segments, one after another, are exactly
  -- the steps of the exploration: none is lost, repeated or moved. Their labels are the given
  -- ones in order, cut off at the number of steps and followed by empty ones for the rest.
  pub flat-segment_steps :
      (completes : String → Bool) (section_of : Step × String → String) (steps : List Step)
      (labels : List String)
      → let rows = flat (segment_steps completes section_of steps labels) in
        (map (λ row. row.0) rows ≡ steps)
        × (map (λ row. row.1) rows
            ≡ take (length steps) labels ++ blanks (length steps - length labels))
  flat-segment_steps completes section_of steps labels =
      let e = flat-padded completes section_of steps labels in
      (
        ap (map (λ row. row.0)) e ∙ steps-padded steps labels,
        ap (map (λ row. row.1)) e ∙ labels-padded steps labels,
      )

  -- An exploration of at least two steps has no segment of a single step.
  pub segment_steps-NoneSingle :
      (completes : String → Bool) (section_of : Step × String → String) (steps : List Step)
      (labels : List String)
      → 2 ≤ length steps
      → NoneSingle (segment_steps completes section_of steps labels)
  unfolding segment_steps
  segment_steps-NoneSingle completes section_of [] labels h = tt
  segment_steps-NoneSingle completes section_of (s ∷ ss) labels h =
      let rows = padded (s ∷ ss) labels in
      let cuts = cut_indices completes section_of rows in
      let bounds = Bounds-cut_indices completes section_of rows in
      NoneSingle-merge_singletons (slices rows cuts)
        (NoneEmpty-slices rows cuts (omega (arith, h, length-padded (s ∷ ss) labels)) bounds)
        (omega (arith, h, length-padded (s ∷ ss) labels, ap length (flat-slices rows cuts bounds)))
