-- ===== src/Automation/Segment.antt =====
-- navigator/automation/explore/segment.py: one long exploration, cut into flows. A row is a step
-- with its label; whether a label completes a unit of work and the section of a row (regular
-- expressions) are parameters, and so is the naming of a flow.
pub mod Cuts
pub mod Merging
pub mod Whole
mod Tests
use mathlib.Core.List.{reverse}
use navigator_ai.Prelude.{
  ℕ, zero, suc, ◌+◌, ◌-◌, String, Bool, true, false, Option, none, some, List, [], ◌∷◌, ◌++◌, not,
  ◌&&◌, ltb, leb, ◌==◌, string_eq, nat_eq, contains, length, take, drop, keep_if, if◌then◌else◌,
}

abbrev section_or : String → String → String
section_or section prev = if section == "" then prev else section

-- Whether a new area begins with row `i`.
unfoldable changes_section : ℕ → String → String → List ℕ → Bool
changes_section i section prev cuts =
    ltb 0 i
    && not (section == "")
    && not (prev == "")
    && not (section == prev)
    && not (contains cuts i)

-- `sorted(set(…))`
unfoldable pub insert_cut : ℕ → List ℕ → List ℕ
insert_cut c [] = c ∷ []
insert_cut c (d ∷ ds) =
    let rest = insert_cut c ds in
    if ltb c d then c ∷ d ∷ ds else if c == d then d ∷ ds else d ∷ rest

unfoldable pub sorted_set : List ℕ → List ℕ
unfolding insert_cut
sorted_set [] = []
sorted_set (c ∷ cs) = insert_cut c (sorted_set cs)

abbrev pub Rows : Type 0 → Type 0
Rows Step = List (Step × String)

module _ {Step : Type 0} where
  -- The labels, cut or padded with "" to the number of steps.
  unfoldable pub padded : List Step → List String → Rows Step
  padded [] labels = []
  padded (s ∷ ss) [] = (s, "") ∷ padded ss []
  padded (s ∷ ss) (l ∷ ls) = (s, l) ∷ padded ss ls

  module _ (completes : String → Bool) (section_of : Step × String → String) where
    -- The loop over the rows from row `i` on, with the cuts so far and the section before.
    unfoldable pub cuts_from : ℕ → Rows Step → String → List ℕ → List ℕ
    unfolding changes_section
    cuts_from i [] prev cuts = cuts
    cuts_from i (row ∷ []) prev cuts =
        let section = section_of row in
        if changes_section i section prev cuts then cuts ++ i ∷ [] else cuts
    cuts_from i (row ∷ next ∷ rows) prev cuts =
        let section = section_of row in
        let completed = cuts_from (suc i) (next ∷ rows) (section_of next) (cuts ++ suc i ∷ []) in
        let changed = cuts_from (suc i) (next ∷ rows) (section_or section prev) (cuts ++ i ∷ []) in
        let same = cuts_from (suc i) (next ∷ rows) (section_or section prev) cuts in
        if completes row.1
        then completed
        else if changes_section i section prev cuts
        then changed
        else same

    unfoldable pub cut_indices : Rows Step → List ℕ
    unfolding cuts_from sorted_set
    cut_indices [] = []
    cut_indices (row ∷ rows) = sorted_set (
        keep_if (λ c. ltb 0 c && ltb c (length (row ∷ rows)))
          (cuts_from 0 (row ∷ rows) (section_of row) []))

  -- `rows[a:b]` for neighbours of the bounds, from the bound `a` on.
  unfoldable pub slices_from : Rows Step → ℕ → List ℕ → List (Rows Step)
  slices_from rows a [] = []
  slices_from rows a (b ∷ bs) =
      let rest = slices_from rows b bs in
      if leb b a then rest else take (b - a) (drop a rows) ∷ rest

  abbrev pub or_whole : List (Rows Step) → Rows Step → List (Rows Step)
  or_whole [] rows = rows ∷ []
  or_whole (x ∷ xs) rows = x ∷ xs

  unfoldable pub slices : Rows Step → List ℕ → List (Rows Step)
  unfolding slices_from
  slices rows cuts = or_whole (slices_from rows 0 (cuts ++ length rows ∷ [])) rows

  abbrev pub is_single : Rows Step → Bool
  is_single (row ∷ []) = true
  is_single _ = false

  -- One slice, with `out` from its last element on.
  unfoldable pub merge_slice : Rows Step → List (Rows Step) → List (Rows Step)
  merge_slice slice [] = slice ∷ []
  merge_slice slice (last ∷ out) =
      if is_single slice
      then (last ++ slice) ∷ out
      else if is_single last
      then (last ++ slice) ∷ out
      else slice ∷ last ∷ out

  unfoldable pub merge_slices : List (Rows Step) → List (Rows Step) → List (Rows Step)
  unfolding merge_slice
  merge_slices [] out = out
  merge_slices (slice ∷ rest) out = merge_slices rest (merge_slice slice out)

  unfoldable pub merge_singletons : List (Rows Step) → List (Rows Step)
  unfolding merge_slices
  merge_singletons xs = if leb (length xs) 1 then xs else reverse (merge_slices xs [])

  unfoldable pub segment_steps :
      (String → Bool) → (Step × String → String) → List Step → List String → List (Rows Step)
  unfolding padded cut_indices slices merge_singletons
  segment_steps completes section_of [] labels = []
  segment_steps completes section_of (s ∷ ss) labels =
      let rows = padded (s ∷ ss) labels in
      merge_singletons (slices rows (cut_indices completes section_of rows))
