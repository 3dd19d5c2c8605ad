-- ===== src/Automation/Segment/Tests.antt =====
-- Concrete runs of navigator/automation/explore/segment.py.
use navigator_ai.Prelude.{
  map, take, ◌++◌, ◌-◌, ℕ, ◌≡◌, refl, String, Bool, List, [], ◌∷◌, ◌==◌, string_eq, arith,
}
use navigator_ai.Automation.Segment.{segment_steps}
use navigator_ai.Automation.Segment.Cuts.{flat}
use navigator_ai.Automation.Segment.Merging.{NoneSingle}
use navigator_ai.Automation.Segment.Whole.{blanks, flat-segment_steps, segment_steps-NoneSingle}

abbrev saves : String → Bool
saves label = label == "save"

abbrev section : ℕ × String → String
section row = row.1

abbrev five_steps : List ℕ
five_steps = 1 ∷ 2 ∷ 3 ∷ 4 ∷ 5 ∷ []

abbrev four_labels : List String
four_labels = "open" ∷ "save" ∷ "save" ∷ "open" ∷ []

-- The third step completes a unit of its own and joins the first two; the last two stay together.
five_steps-segmented :
    segment_steps saves section five_steps four_labels
    ≡ ((1, "open") ∷ (2, "save") ∷ (3, "save") ∷ []) ∷ ((4, "open") ∷ (5, "") ∷ []) ∷ []
unfolding segment_steps
five_steps-segmented = refl

flat-segment_steps_example :
    let rows = flat (segment_steps saves section five_steps four_labels) in
    (map (λ row. row.0) rows ≡ five_steps)
    × (map (λ row. row.1) rows ≡ take 5 four_labels ++ blanks (5 - 4))
flat-segment_steps_example = flat-segment_steps saves section five_steps four_labels

segment_steps-NoneSingle_example : NoneSingle (segment_steps saves section five_steps four_labels)
segment_steps-NoneSingle_example =
    segment_steps-NoneSingle saves section five_steps four_labels (omega arith)
