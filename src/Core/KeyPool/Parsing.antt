-- ===== src/Core/KeyPool/Parsing.antt =====
-- What `parse_key_list` of navigator/core/key_pool.py returns.
use navigator_ai.Prelude.{
  Bool, true, false, not, ◌&&◌, ◌||◌, ◌≡◌, refl, List, [], ◌∷◌, ◌++◌, contains, text_eq, Text,
  strip, arith, list_beq, list_beq_iff, if◌then◌else◌,
}
use navigator_ai.Core.KeyPool.{is_empty, split_commas, add_key, add_keys, add_parts, parse_key_list}

-- No key stands in the list twice.
abbrev pub IsDistinct : List Text → Type 0
IsDistinct [] = Unit
IsDistinct (x ∷ xs) = (contains xs x ≡ false) × IsDistinct xs

contains-append :
    (xs ys : List Text) (a : Text) → contains (xs ++ ys) a ≡ (contains xs a || contains ys a)
contains-append [] ys a = refl
contains-append (x ∷ xs) ys a = ground (arith, contains-append xs ys a)

beq_sym : (a b : Text) → list_beq a b ≡ list_beq b a
beq_sym a b = ground (arith, list_beq_iff a b, list_beq_iff b a)

IsDistinct-snoc :
    (xs : List Text) (a : Text) → contains xs a ≡ false → IsDistinct xs → IsDistinct (xs ++ a ∷ [])
IsDistinct-snoc [] a h d = (refl, tt)
IsDistinct-snoc (x ∷ xs) a h d = (
  ground (arith, contains-append xs (a ∷ []) x, beq_sym a x),
  IsDistinct-snoc xs a (ground arith) d.1,
)

IsDistinct-if :
    (test : Bool) (xs ys : List Text)
    → IsDistinct ys
    → (test ≡ true → IsDistinct xs)
    → IsDistinct (if test then xs else ys)
IsDistinct-if true xs ys dy dx = dx refl
IsDistinct-if false xs ys dy dx = dy

IsDistinct-add_key : (out : List Text) (raw : Text) → IsDistinct out → IsDistinct (add_key out raw)
unfolding add_key
IsDistinct-add_key out raw d =
    IsDistinct-if (not (is_empty (strip raw)) && not (contains out (strip raw)))
      (out ++ strip raw ∷ []) out d (λ new. IsDistinct-snoc out (strip raw) (ground arith) d)

-- The pieces between the commas of all parts, stripped.
unfoldable pub pieces : List Text → List Text
pieces [] = []
pieces (raw ∷ raws) = strip raw ∷ pieces raws

contains-add_key :
    (out : List Text) (raw a : Text)
    → contains (add_key out raw) a
      ≡ (contains out a || (list_beq (strip raw) a && not (is_empty a)))
unfolding add_key
contains-add_key out raw a =
    ground (arith, contains-append out (strip raw ∷ []) a, list_beq_iff (strip raw) a)

IsDistinct-add_keys : (out raws : List Text) → IsDistinct out → IsDistinct (add_keys out raws)
unfolding add_keys
IsDistinct-add_keys out [] d = d
IsDistinct-add_keys out (raw ∷ raws) d =
    IsDistinct-add_keys (add_key out raw) raws (IsDistinct-add_key out raw d)

IsDistinct-add_parts : (out parts : List Text) → IsDistinct out → IsDistinct (add_parts out parts)
unfolding add_parts
IsDistinct-add_parts out [] d = d
IsDistinct-add_parts out (part ∷ parts) d =
    IsDistinct-add_parts (add_keys out (split_commas part)) parts
      (IsDistinct-add_keys out (split_commas part) d)

contains-add_keys :
    (out raws : List Text) (a : Text)
    → contains (add_keys out raws) a
      ≡ (contains out a || (contains (pieces raws) a && not (is_empty a)))
unfolding add_keys pieces
contains-add_keys out [] a = ground arith
contains-add_keys out (raw ∷ raws) a =
    ground (arith, contains-add_keys (add_key out raw) raws a, contains-add_key out raw a)

unfoldable pub all_pieces : List Text → List Text
all_pieces [] = []
all_pieces (part ∷ parts) = pieces (split_commas part) ++ all_pieces parts

contains-add_parts :
    (out parts : List Text) (a : Text)
    → contains (add_parts out parts) a
      ≡ (contains out a || (contains (all_pieces parts) a && not (is_empty a)))
unfolding add_parts all_pieces
contains-add_parts out [] a = ground arith
contains-add_parts out (part ∷ parts) a = ground (
  arith,
  contains-add_parts (add_keys out (split_commas part)) parts a,
  contains-add_keys out (split_commas part) a,
  contains-append (pieces (split_commas part)) (all_pieces parts) a,
)

-- The parsed list holds no key twice, and holds a text exactly when that text is not empty and is
-- one of the pieces between the commas of the parts, with the white space round it taken off.
parse_key_list_lem :
    (parts : List Text) (a : Text)
    → IsDistinct (parse_key_list parts)
      × (contains (parse_key_list parts) a ≡ (contains (all_pieces parts) a && not (is_empty a)))
unfolding parse_key_list
parse_key_list_lem parts a = (IsDistinct-add_parts [] parts tt, contains-add_parts [] parts a)
