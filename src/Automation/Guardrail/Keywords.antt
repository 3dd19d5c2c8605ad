-- ===== src/Automation/Guardrail/Keywords.antt =====
-- `keyword_hit` of navigator/automation/explore/guardrail.py against the words of the fields.
use mathlib.Core.Option.{none-ne-some}
use navigator_ai.Prelude.{
  ◌≡◌, refl, sym, ap, ◌∙◌, subst, inl, inr, true, false, none, some, List, [], ◌∷◌, contains,
  text_eq, Bool-cases, if◌then◌else◌, arith, Text, lower, ◌==◌, list_beq_iff, beq_refl,
}
use navigator_ai.Automation.Guardrail.{
  Element, is_empty, is_destructive, element_text_blob, words, first_keyword, keyword_hit,
}
use navigator_ai.Automation.Guardrail.Words.{words_of_element, lowered_words-element_text_blob}

-- The destructive keyword of an element is the first word of its text fields, read one by one in
-- the order of `_TEXT_FIELDS` and in lower case, that is on the keyword list: joining and
-- stripping the fields neither makes nor hides a word.
pub keyword_hit-words_of_element :
    (el : Element) → keyword_hit el ≡ first_keyword (words_of_element el)
unfolding keyword_hit
keyword_hit-words_of_element el =
    of_blob (lower (element_text_blob el)) ∙ ap first_keyword (lowered_words-element_text_blob el)
  where
    of_blob :
        (blob : Text)
        → (if is_empty blob then none else first_keyword (words blob)) ≡ first_keyword (words blob)
    of_blob [] = refl
    of_blob (c ∷ s) = refl

-- No word of a list is a destructive keyword.
abbrev pub Harmless : List Text → Type 0
Harmless ws = (w : Text) → contains ws w ≡ true → is_destructive w ≡ false

first_keyword-hit :
    (v : Text) (ws : List Text) → is_destructive v ≡ true → first_keyword (v ∷ ws) ≡ some v
unfolding first_keyword
first_keyword-hit v ws k = rw k refl

first_keyword-skip :
    (v : Text) (ws : List Text)
    → is_destructive v ≡ false
    → first_keyword (v ∷ ws) ≡ first_keyword ws
unfolding first_keyword
first_keyword-skip v ws k = rw k refl

contains-tail :
    (v w : Text) (ws : List Text)
    → (v == w) ≡ false
    → contains (v ∷ ws) w ≡ true
    → contains ws w ≡ true
contains-tail v w ws s h = ground arith

pub first_keyword-Harmless : (ws : List Text) → first_keyword ws ≡ none → Harmless ws
first_keyword-Harmless [] e w h = cc
first_keyword-Harmless (v ∷ ws) e w h = elim (Bool-cases (is_destructive v)) [
  | inl k ↦ absurd (none-ne-some v (sym e ∙ first_keyword-hit v ws k))
  | inr k ↦ elim (Bool-cases (v == w)) [
    | inl s ↦ subst (λ x. is_destructive x ≡ false) ((list_beq_iff v w).0 s) k
    | inr s ↦
        first_keyword-Harmless ws (sym (first_keyword-skip v ws k) ∙ e) w (contains-tail v w ws s h)
  ]
]

pub Harmless-first_keyword : (ws : List Text) → Harmless ws → first_keyword ws ≡ none
unfolding first_keyword
Harmless-first_keyword [] h = refl
Harmless-first_keyword (v ∷ ws) h =
    rw (h v (rw (beq_refl v) refl)) (Harmless-first_keyword ws (λ w k. h w (ground (arith, k))))
