-- ===== src/Agent/SemanticCache/Recency.antt =====
-- The cache of navigator/agent/semantic_cache.py is bounded and keeps what was put last.
use navigator_ai.Prelude.{
  ℕ, ◌≤◌, ◌≡◌, ◌∙◌, ap, refl, inl, inr, none, some, List, [], ◌∷◌, ◌++◌, leb, leb→le, length, ◌==◌,
  text_eq, beq_refl, Text, Bool-cases, arith,
}
use navigator_ai.Agent.SemanticCache.{normal, cache_key, find, without, to_end, evict, get, put}

module _ {Result : Type 0} where
  length-evict : (n : ℕ) (items : List (Text × Result)) → length (evict n items) ≤ n
  unfolding evict
  length-evict n [] = omega arith
  length-evict n (item ∷ items) = elim (Bool-cases (leb (length (item ∷ items)) n)) [
    | inl e ↦ rw e (leb→le (length (item ∷ items)) n e)
    | inr e ↦ rw e (length-evict n items)
  ]

  find-append :
      (k : Text) (items : List (Text × Result)) (r : Result)
      → find k items ≡ none
      → find k (items ++ (k, r) ∷ []) ≡ some r
  unfolding find
  find-append k [] r h = rw (beq_refl k) refl
  find-append k (x ∷ items) r h = elim (Bool-cases (x.0 == k)) [
    | inl e ↦ cc
    | inr e ↦ cc (e, find-append k items r cc)
  ]

  find-without : (k : Text) (items : List (Text × Result)) → find k (without k items) ≡ none
  unfolding find without
  find-without k [] = refl
  find-without k (x ∷ items) = elim (Bool-cases (x.0 == k)) [
    | inl e ↦ rw e (find-without k items)
    | inr e ↦ cc (e, find-without k items)
  ]

  find-evict-append :
      (n : ℕ) (k : Text) (items : List (Text × Result)) (r : Result)
      → 1 ≤ n
      → find k items ≡ none
      → find k (evict n (items ++ (k, r) ∷ [])) ≡ some r
  unfolding find evict
  find-evict-append n k [] r h f = elim (Bool-cases (leb 1 n)) [
    | inl e ↦ rw e (rw (beq_refl k) refl)
    | inr e ↦ absurd (ground (arith, e))
  ]
  find-evict-append n k (x ∷ items) r h f =
      elim (Bool-cases (leb (length (x ∷ items ++ (k, r) ∷ [])) n)) [
        | inl e ↦ rw e (find-append k (x ∷ items) r f)
        | inr e ↦ rw e (
            find-evict-append n k items r h
              (elim (Bool-cases (x.0 == k)) [ inl i ↦ cc | inr i ↦ cc ]))
      ]

  -- After a `put`, a cache that may hold at least one entry answers the query for that product
  -- with the result, also when the query differs in case or in the space around it, and it holds no
  -- more than `max_entries` entries.
  pub get-put :
      (max_entries : ℕ) (product_id query asked : Text) (result : Result)
      (items : List (Text × Result))
      → 1 ≤ max_entries
      → normal asked ≡ normal query
      → ((get product_id asked (put max_entries product_id query result items)).0 ≡ some result)
        × (length (put max_entries product_id query result items) ≤ max_entries)
  unfolding get put
  get-put n p q asked r items h same =
      let k = cache_key p q in
      (
        ap (λ t. find (p ++ (b':' ∷ t)) (evict n (to_end k r items))) same
            ∙ find-evict-append n k (without k items) r h (find-without k items),
        length-evict n (to_end k r items),
      )
