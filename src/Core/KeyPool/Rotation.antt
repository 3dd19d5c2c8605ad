-- ===== src/Core/KeyPool/Rotation.antt =====
-- Which keys `call_with_rotation` of navigator/core/key_pool.py tries, and how it ends.
use navigator_ai.Prelude.{
  ℕ, ◌+◌, ◌<◌, ◌≡◌, refl, ◌∙◌, ap, true, false, Option, none, some, List, [], ◌∷◌, ◌++◌, ltb→lt,
  lt→ltb, length, Text, arith, length-append,
}
use navigator_ai.Core.KeyPool.{
  Attempt, value, raised, Outcome, returned, reraised, no_keys, no_attempt, is_rate_limit_error,
  message_of, rotate, call_with_rotation,
}

module _ {A : Type 0} (fn : Text → Attempt A) where
  -- The call with each of these keys hits a rate limit.
  abbrev pub AllLimited : List Text → Type 0
  AllLimited [] = Unit
  AllLimited (k ∷ ks) =
      ((m : Text) × (fn k ≡ raised m) × (is_rate_limit_error m ≡ true)) × AllLimited ks

  -- What the first key that is not rate limited does, as the end of the whole call.
  abbrev pub Decides : Text → Outcome A → Type 0
  Decides k (returned a) = fn k ≡ value a
  Decides k (reraised m) = (fn k ≡ raised m) × (is_rate_limit_error m ≡ false)
  Decides k no_keys = ⊥
  Decides k no_attempt = ⊥

  rotate_here :
      (n i : ℕ) (last : Option Text) (k : Text) (after : List Text) (end : Outcome A)
      → Decides k end
      → rotate fn n i last (k ∷ after) ≡ (end, k ∷ [])
  unfolding rotate
  rotate_here n i last k after (returned a) d = rw (rotate, d) refl
  rotate_here n i last k after (reraised m) d = rw (rotate, d.0, d.1) refl
  rotate_here n i last k after no_keys d = elim d [ ]
  rotate_here n i last k after no_attempt d = elim d [ ]

  rotate_on :
      (n i : ℕ) (last : Option Text) (k m : Text) (keys : List Text)
      → i + 1 < n
      → fn k ≡ raised m
      → is_rate_limit_error m ≡ true
      → rotate fn n i last (k ∷ keys)
        ≡ ((rotate fn n (i + 1) (some m) keys).0, k ∷ (rotate fn n (i + 1) (some m) keys).1)
  unfolding rotate
  rotate_on n i last k m keys h e r = rw (rotate, e, r, lt→ltb (i + 1) n h, ap message_of e) refl

  rotate-Decides :
      (n i : ℕ) (last : Option Text) (before : List Text) (k : Text) (after : List Text)
      (end : Outcome A)
      → i + length before < n
      → AllLimited before
      → Decides k end
      → rotate fn n i last (before ++ (k ∷ after)) ≡ (end, before ++ k ∷ [])
  rotate-Decides n i last [] k after end h l d = rotate_here n i last k after end d
  rotate-Decides n i last (b ∷ before) k after end h l d =
      rotate_on n i last b l.0.0 (before ++ (k ∷ after)) (omega arith) l.0.1 l.0.2
      ∙ ap (λ (r : Outcome A × List Text). (r.0, b ∷ r.1))
          (rotate-Decides n (i + 1) (some l.0.0) before k after end (omega arith) l.1 d)

  -- The last key, on which a rate limit is raised like any other error.
  rotate_exhausted :
      (n i : ℕ) (last : Option Text) (before : List Text) (k m : Text)
      → n ≡ i + length before + 1
      → AllLimited before
      → fn k ≡ raised m
      → rotate fn n i last (before ++ (k ∷ [])) ≡ (reraised m, before ++ k ∷ [])
  unfolding rotate
  rotate_exhausted n i last [] k m h l e = rw e (ground (arith, ltb→lt (i + 1) n))
  rotate_exhausted n i last (b ∷ before) k m h l e =
      rotate_on n i last b l.0.0 (before ++ (k ∷ [])) (omega arith) l.0.1 l.0.2
      ∙ ap (λ (r : Outcome A × List Text). (r.0, b ∷ r.1))
          (rotate_exhausted n (i + 1) (some l.0.0) before k m (omega arith) l.1 e)

  call_lem :
      (before : List Text) (k : Text) (after : List Text)
      → call_with_rotation fn (before ++ (k ∷ after)) none
        ≡ rotate fn (length (before ++ (k ∷ after))) 0 none (before ++ (k ∷ after))
  unfolding call_with_rotation
  call_lem [] k after = refl
  call_lem (b ∷ before) k after = refl

  -- With no limit on the attempts, keys that are rate limited are passed over in order, and the
  -- first other one decides: its value is returned, or its error is raised, and no key after it is
  -- tried.
  call_with_rotation-first :
      (before : List Text) (k : Text) (after : List Text) (end : Outcome A)
      → AllLimited before
      → Decides k end
      → call_with_rotation fn (before ++ (k ∷ after)) none ≡ (end, before ++ k ∷ [])
  call_with_rotation-first before k after end l d =
      call_lem before k after
      ∙ rotate-Decides (length (before ++ (k ∷ after))) 0 none before k after end
          (omega (arith, length-append {0} before (k ∷ after))) l d

  -- With no limit on the attempts, if every key is rate limited, each is tried once, and the error
  -- of the last one is raised.
  call_with_rotation-exhausted :
      (before : List Text) (k m : Text)
      → AllLimited before
      → fn k ≡ raised m
      → is_rate_limit_error m ≡ true
      → call_with_rotation fn (before ++ (k ∷ [])) none ≡ (reraised m, before ++ k ∷ [])
  call_with_rotation-exhausted before k m l e r =
      call_lem before k []
      ∙ rotate_exhausted (length (before ++ (k ∷ []))) 0 none before k m
          (omega (arith, length-append {0} before (k ∷ []))) l e
