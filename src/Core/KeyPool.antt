-- ===== src/Core/KeyPool.antt =====
-- navigator/core/key_pool.py: lists of API keys, and calls that rotate through them. A text is a
-- list of code points; `strip` and `lower` know the ASCII white space and letters.
pub mod Parsing
pub mod Rotation
mod Tests
use navigator_ai.Prelude.{
  ℕ, zero, suc, ◌+◌, Bool, true, false, not, ◌&&◌, ◌||◌, Option, none, some, List, [], ◌∷◌, ◌++◌,
  ltb, length, take, contains, ◌==◌, nat_eq, text_eq, Text, codes, has_infix, lower, strip,
  if◌then◌else◌,
}

abbrev pub is_empty : Text → Bool
is_empty [] = true
is_empty (c ∷ t) = false

cons_first : ℕ → List Text → List Text
cons_first c [] = (c ∷ []) ∷ []
cons_first c (p ∷ ps) = (c ∷ p) ∷ ps

-- `part.split(",")`
unfoldable pub split_commas : Text → List Text
unfolding cons_first
split_commas [] = [] ∷ []
split_commas (c ∷ s) =
    let rest = split_commas s in if c == b',' then [] ∷ rest else cons_first c rest

-- The body of the inner loop.
unfoldable pub add_key : List Text → Text → List Text
add_key out raw =
    let key = strip raw in
    if not (is_empty key) && not (contains out key) then out ++ key ∷ [] else out

unfoldable pub add_keys : List Text → List Text → List Text
add_keys out [] = out
add_keys out (raw ∷ raws) = add_keys (add_key out raw) raws

add_parts : List Text → List Text → List Text
unfolding add_keys
add_parts out [] = out
add_parts out (part ∷ parts) = add_parts (add_keys out (split_commas part)) parts

unfoldable pub parse_key_list : List Text → List Text
unfolding add_parts
parse_key_list parts = add_parts [] parts

unfoldable pub is_rate_limit_error : Text → Bool
is_rate_limit_error message =
    let msg = lower message in
    has_infix msg (codes "429")
    || (has_infix msg (codes "rate limit")
        || (has_infix msg (codes "resource_exhausted")
            || (has_infix msg (codes "quota exceeded")
                || (has_infix msg (codes "limit: 0")
                    || has_infix msg (codes "too many requests")))))

-- What `fn(key)` does: return a value, or raise with a message.
pub data Attempt (A : Type 0) : Type 0 where
  value : A → Attempt A
  raised : Text → Attempt A

-- How the whole call ends. `no_keys` is the RuntimeError, `no_attempt` the failed assertion.
pub data Outcome (A : Type 0) : Type 0 where
  returned : A → Outcome A
  reraised : Text → Outcome A
  no_keys no_attempt : Outcome A

abbrev message_of : {A : Type 0} → Attempt A → Option Text
message_of (value a) = none
message_of (raised message) = some message

module _ {A : Type 0} (fn : Text → Attempt A) where
  after_loop : Option Text → Outcome A
  after_loop none = no_attempt
  after_loop (some message) = reraised message

  -- The loop over `enumerate(list(keys)[:attempts])`; `n` is `len(keys)`. With the keys that were
  -- tried, in order.
  unfoldable pub rotate : ℕ → ℕ → Option Text → List Text → Outcome A × List Text
  unfolding after_loop
  rotate n i last [] = (after_loop last, [])
  rotate n i last (key ∷ keys) =
      let (rest, tried) = rotate n (i + 1) (message_of (fn key)) keys in
      elim (fn key) [
        | value a ↦ (returned a, key ∷ [])
        | raised message ↦
            if is_rate_limit_error message && ltb (i + 1) n
            then (rest, key ∷ tried)
            else (reraised message, key ∷ [])
      ]

  unfoldable pub call_with_rotation : List Text → Option ℕ → Outcome A × List Text
  unfolding rotate
  call_with_rotation [] max_attempts = (no_keys, [])
  call_with_rotation (key ∷ keys) none = rotate (length (key ∷ keys)) 0 none (key ∷ keys)
  call_with_rotation (key ∷ keys) (some attempts) =
      rotate (length (key ∷ keys)) 0 none (take attempts (key ∷ keys))
