-- ===== src/Automation/Guardrail/Words.antt =====
-- The words that `keyword_hit` of navigator/automation/explore/guardrail.py looks at.
use mathlib.Core.List.{reverse, reverse-cons, reverse-reverse, append-nil, map-append}
use navigator_ai.Prelude.{
  ℕ, true, false, ◌≡◌, refl, sym, ap, ◌∙◌, inl, inr, List, [], ◌∷◌, ◌++◌, map, not, keep_if,
  Bool-cases, arith, Text, lower, lower_code, is_space, strip, strip_left,
}
use navigator_ai.Automation.Guardrail.{
  Element, get, is_empty, text_fields, join_spaces, element_text_blob, is_letter, words_after,
}

-- The words of a text in lower case, and those of several texts.
abbrev lowered_words : Text → List Text
lowered_words s = words_after [] (lower s)

abbrev words_of_all : List Text → List Text
words_of_all [] = []
words_of_all (p ∷ ps) = lowered_words p ++ words_of_all ps

abbrev pub words_of_element : Element → List Text
words_of_element el = words_of_all (map (λ f. get f el) text_fields)

words_after-break :
    (word x : Text) (c : ℕ) (y : Text)
    → is_letter c ≡ false
    → words_after word (x ++ (c ∷ y)) ≡ words_after word x ++ words_after [] y
unfolding words_after
words_after-break word [] c y h =
    rw h (elim (Bool-cases (is_empty word)) [ inl e ↦ rw e refl | inr e ↦ rw e refl ])
words_after-break word (d ∷ x) c y h = rw (words_after-break (word ++ d ∷ []) x c y h) (
    rw (words_after-break [] x c y h) (elim (Bool-cases (is_letter d)) [
      | inl e ↦ rw e refl
      | inr e ↦ rw e (elim (Bool-cases (is_empty word)) [ inl f ↦ rw f refl | inr f ↦ rw f refl ])
    ]))

lowered_words-break :
    (x : Text) (c : ℕ) (y : Text)
    → is_letter (lower_code c) ≡ false
    → lowered_words (x ++ (c ∷ y)) ≡ lowered_words x ++ lowered_words y
unfolding lower
lowered_words-break x c y h =
    rw (map-append lower_code x (c ∷ y))
      (words_after-break [] (map lower_code x) (lower_code c) (map lower_code y) h)

space_breaks : (c : ℕ) → is_space c ≡ true → is_letter (lower_code c) ≡ false
unfolding is_space lower_code
space_breaks c h = ground arith

lowered_words-space :
    (c : ℕ) (s : Text) → is_space c ≡ true → lowered_words (c ∷ s) ≡ lowered_words s
unfolding lower words_after
lowered_words-space c s h = rw (space_breaks c h) refl

lowered_words-strip_left : (s : Text) → lowered_words (strip_left s) ≡ lowered_words s
unfolding strip_left
lowered_words-strip_left [] = refl
lowered_words-strip_left (c ∷ s) = elim (Bool-cases (is_space c)) [
  | inl e ↦ rw e (lowered_words-strip_left s ∙ sym (lowered_words-space c s e))
  | inr e ↦ rw e refl
]

-- The end of a text, which is the beginning of its reverse.
lowered_words-strip_right :
    (r : Text) → lowered_words (reverse (strip_left r)) ≡ lowered_words (reverse r)
unfolding strip_left lower words_after
lowered_words-strip_right [] = refl
lowered_words-strip_right (c ∷ r) = elim (Bool-cases (is_space c)) [
  | inl e ↦ rw e (
      rw (reverse-cons c r) (
        lowered_words-strip_right r
        ∙ sym (lowered_words-break (reverse r) c [] (space_breaks c e) ∙ append-nil _)))
  | inr e ↦ rw e refl
]

lowered_words-strip : (s : Text) → lowered_words (strip s) ≡ lowered_words s
unfolding strip
lowered_words-strip s =
    lowered_words-strip_right (reverse (strip_left s))
    ∙ (ap lowered_words (reverse-reverse (strip_left s)) ∙ lowered_words-strip_left s)

lowered_words-join_spaces :
    (ps : List Text)
    → lowered_words (join_spaces (keep_if (λ p. not (is_empty p)) ps)) ≡ words_of_all ps
unfolding join_spaces words_after lower
lowered_words-join_spaces [] = refl
lowered_words-join_spaces ([] ∷ ps) = lowered_words-join_spaces ps
lowered_words-join_spaces ((c ∷ p) ∷ ps) =
    joined (keep_if (λ q. not (is_empty q)) ps) (lowered_words-join_spaces ps)
  where
    joined :
        (kept : List Text)
        → lowered_words (join_spaces kept) ≡ words_of_all ps
        → lowered_words (join_spaces ((c ∷ p) ∷ kept)) ≡ lowered_words (c ∷ p) ++ words_of_all ps
    joined [] e = rw (sym e) (sym (append-nil _))
    joined (q ∷ kept) e =
        rw (sym e) (lowered_words-break (c ∷ p) b' ' (join_spaces (q ∷ kept)) refl)

-- The words of the text that the code puts together are those of the fields, in order.
pub lowered_words-element_text_blob :
    (el : Element) → lowered_words (element_text_blob el) ≡ words_of_element el
unfolding element_text_blob
lowered_words-element_text_blob el =
    lowered_words-strip
      (join_spaces (keep_if (λ p. not (is_empty p)) (map (λ f. get f el) text_fields)))
    ∙ lowered_words-join_spaces (map (λ f. get f el) text_fields)
