-- ===== src/Agent/SemanticCache/Isolation.antt =====
-- Where the answers of the cache of navigator/agent/semantic_cache.py come from.
use navigator_ai.Prelude.{
  ℕ, ◌≡◌, subst, refl, ◌⊎◌, inl, inr, false, Option, none, some, List, [], ◌∷◌, ◌++◌, leb, length,
  contains, ◌==◌, text_eq, nat_eq, list_beq_iff, Text, Bool-cases,
}
use navigator_ai.Agent.SemanticCache.{
  normal, cache_key, find, without, to_end, evict, moved, get, put,
}

abbrev pub colon : ℕ
colon = b':'

-- A key can be taken apart if the ids of products have no colon.
cache_key-injective :
    (p q a b : Text)
    → contains p colon ≡ false
    → contains q colon ≡ false
    → p ++ (colon ∷ a) ≡ q ++ (colon ∷ b)
    → (p ≡ q) × (a ≡ b)
cache_key-injective [] [] a b h k e = (refl, cc)
cache_key-injective [] (d ∷ q) a b h k e = cc
cache_key-injective (c ∷ p) [] a b h k e = cc
cache_key-injective (c ∷ p) (d ∷ q) a b h k e =
    let (same, rest) = cache_key-injective p q a b (tail-colon c p h) (tail-colon d q k) cc in
    (cc, rest)
  where
    tail-colon : (c : ℕ) (t : Text) → contains (c ∷ t) colon ≡ false → contains t colon ≡ false
    tail-colon c t i = elim (Bool-cases (c == colon)) [ inl f ↦ cc | inr f ↦ cc ]

-- A call of the cache.
pub data Op (Result : Type 0) : Type 0 where
  gets : Text → Text → Op Result
  puts : Text → Text → Result → Op Result

module _ {Result : Type 0} where
  unfoldable pub run : ℕ → List (Op Result) → List (Text × Result) → List (Text × Result)
  run n [] items = items
  run n (gets p q ∷ ops) items = run n ops (get p q items).1
  run n (puts p q r ∷ ops) items = run n ops (put n p q r items)

  -- The calls put the result for this product and query.
  abbrev pub WasPut : Text → Text → Result → List (Op Result) → Type 0
  WasPut p q r [] = ⊥
  WasPut p q r (gets _ _ ∷ ops) = WasPut p q r ops
  WasPut p q r (puts p' q' r' ∷ ops) =
      ((p' ≡ p) × (normal q' ≡ normal q) × (r' ≡ r)) ⊎ WasPut p q r ops

  -- The ids of the products have no colon.
  abbrev NoColon : List (Op Result) → Type 0
  NoColon [] = Unit {0}
  NoColon (gets _ _ ∷ ops) = NoColon ops
  NoColon (puts p q r ∷ ops) = (contains p colon ≡ false) × NoColon ops

  -- All items satisfy a predicate.
  abbrev All : (Text → Result → Type 0) → List (Text × Result) → Type 0
  All P [] = Unit {0}
  All P (item ∷ items) = P item.0 item.1 × All P items

  abbrev AllPuts : (Text → Result → Type 0) → List (Op Result) → Type 0
  AllPuts P [] = Unit {0}
  AllPuts P (gets _ _ ∷ ops) = AllPuts P ops
  AllPuts P (puts p q r ∷ ops) = P (cache_key p q) r × AllPuts P ops

  module _ (P : Text → Result → Type 0) where
    All-find :
        (k : Text) (items : List (Text × Result)) (r : Result)
        → All P items
        → find k items ≡ some r
        → P k r
    unfolding find
    All-find k [] r h e = cc
    All-find k (item ∷ items) r (here, later) e = elim (Bool-cases (item.0 == k)) [
      | inl f ↦
          let same : item.1 ≡ r = cc in
          subst (λ x. P x r) ((list_beq_iff item.0 k).0 f) (subst (λ x. P item.0 x) same here)
      | inr f ↦ All-find k items r later cc
    ]

    All-to_end :
        (k : Text) (r : Result) (items : List (Text × Result))
        → P k r
        → All P items
        → All P (to_end k r items)
    unfolding without
    All-to_end k r [] h a = (h, tt)
    All-to_end k r (item ∷ items) h (here, later) = elim (Bool-cases (item.0 == k)) [
      | inl e ↦ rw e (All-to_end k r items h later)
      | inr e ↦ rw e (here, All-to_end k r items h later)
    ]

    All-evict : (n : ℕ) (items : List (Text × Result)) → All P items → All P (evict n items)
    unfolding evict
    All-evict n [] a = tt
    All-evict n (item ∷ items) (here, later) = elim (Bool-cases (leb (length (item ∷ items)) n)) [
      | inl e ↦ rw e (here, later)
      | inr e ↦ rw e (All-evict n items later)
    ]

    All-get : (p q : Text) (items : List (Text × Result)) → All P items → All P (get p q items).1
    unfolding get
    All-get p q items a = found (find (cache_key p q) items) refl
      where
        found :
            (o : Option Result)
            → find (cache_key p q) items ≡ o
            → All P (moved (cache_key p q) o items)
        found none e = a
        found (some r) e =
            All-to_end (cache_key p q) r items (All-find (cache_key p q) items r a e) a

    All-run :
        (n : ℕ) (ops : List (Op Result)) (items : List (Text × Result))
        → AllPuts P ops
        → All P items
        → All P (run n ops items)
    unfolding run put
    All-run n [] items h a = a
    All-run n (gets p q ∷ ops) items h a = All-run n ops (get p q items).1 h (All-get p q items a)
    All-run n (puts p q r ∷ ops) items (here, later) a =
        All-run n ops (put n p q r items) later
          (All-evict n (to_end (cache_key p q) r items) (All-to_end (cache_key p q) r items here a))

  -- What the key of an item tells of the calls.
  Comes : List (Op Result) → Text → Result → Type 0
  Comes ops k r = (p q : Text) → contains p colon ≡ false → k ≡ cache_key p q → WasPut p q r ops

  AllPuts-mono :
      (P Q : Text → Result → Type 0) (ops : List (Op Result))
      → ((k : Text) (r : Result) → P k r → Q k r)
      → AllPuts P ops
      → AllPuts Q ops
  AllPuts-mono P Q [] f h = tt
  AllPuts-mono P Q (gets _ _ ∷ ops) f h = AllPuts-mono P Q ops f h
  AllPuts-mono P Q (puts p q r ∷ ops) f (here, later) =
      (f (cache_key p q) r here, AllPuts-mono P Q ops f later)

  puts-Comes : (ops : List (Op Result)) → NoColon ops → AllPuts (Comes ops) ops
  unfolding Comes
  puts-Comes [] h = tt
  puts-Comes (gets a b ∷ ops) h =
      AllPuts-mono (Comes ops) (Comes (gets a b ∷ ops)) ops (λ k r c. c) (puts-Comes ops h)
  puts-Comes (puts p q r ∷ ops) (here, later) = (
    λ p' q' plain e. inl (
        let (same, asked) = cache_key-injective p p' (normal q) (normal q') here plain e in
        (same, asked, refl)),
    AllPuts-mono (Comes ops) (Comes (puts p q r ∷ ops)) ops
        (λ k s c p' q' plain e. inr (c p' q' plain e)) (puts-Comes ops later),
  )

  -- An answer is never made up and never another product's: after any calls on an empty cache,
  -- when the ids of the products have no colon, what `get` answers was put by one of these calls
  -- for the same product and for the same query, up to case and the space around it.
  pub get-WasPut :
      (max_entries : ℕ) (ops : List (Op Result)) (product_id query : Text) (result : Result)
      → NoColon ops
      → contains product_id colon ≡ false
      → (get product_id query (run max_entries ops [])).0 ≡ some result
      → WasPut product_id query result ops
  unfolding get Comes
  get-WasPut n ops p q r h plain e =
      All-find (Comes ops) (cache_key p q) (run n ops []) r
        (All-run (Comes ops) n ops [] (puts-Comes ops h) tt) e p q plain refl
