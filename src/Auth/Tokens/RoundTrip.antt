-- ===== src/Auth/Tokens/RoundTrip.antt =====
-- One call after the other of navigator/auth/session_tokens.py.
use navigator_ai.Prelude.{
  ℕ, zero, suc, ◌+◌, ◌≤◌, ◌≡◌, refl, ap, ◌∙◌, String, true, false, Option, none, some, List, [],
  ◌∷◌, ◌++◌, arith, string_eq, eq_iff, if◌then◌else◌, ltb, sym, ◌≢◌, Bool-cases, inl, inr,
}
use navigator_ai.Auth.RateLimit.{check_rate_limit}
use navigator_ai.Auth.Tokens.{
  Row, Store, is_none, select, mark_used, TokenError, invalid, already_used, expired, created,
  Consumed, rejected, granted, finish, create_token, consume_token,
}

select-append :
    (h : String) (rows : List Row) (r : Row)
    → select h rows ≡ none
    → r.token_hash ≡ h
    → select h (rows ++ r ∷ []) ≡ some r
unfolding select
select-append h [] r e k = ground (arith, eq_iff r.token_hash h)
select-append h (q ∷ rows) r e k = ground (arith, select-append h rows r)

select-token_hash :
    (h : String) (rows : List Row) (r : Row) → select h rows ≡ some r → r.token_hash ≡ h
unfolding select
select-token_hash h [] r e = cc
select-token_hash h (q ∷ rows) r e =
    ground (arith, select-token_hash h rows r, eq_iff q.token_hash h)

-- Marking the row that was selected counts it, and it is used afterwards.
mark_used-select :
    (h : String) (now : ℕ) (rows : List Row) (r : Row)
    → select h rows ≡ some r
    → is_none r.used_at ≡ true
    → (1 ≤ (mark_used h now rows).0)
      × (select h (mark_used h now rows).1 ≡ some (record r { used_at = some now }))
unfolding select mark_used
mark_used-select h now [] r e f = cc
mark_used-select h now (q ∷ rows) r e f = ground (arith, mark_used-select h now rows r)

finish-marked : (r : Row) (n : ℕ) → 1 ≤ n → finish r n ≡ granted r.product_id r.intake
unfolding finish
finish-marked r zero h = absurd (omega (arith, h))
finish-marked r (suc n) h = refl

module _ (hash_key : String → String) (dumps loads : String → String) where
  -- What a granted call answers, given the row.
  abbrev answer : Row → Consumed
  answer r = granted r.product_id (elim r.intake [ none ↦ none | some text ↦ some (loads text) ])

  consume_token-accepted :
      (raw : String) (now : ℕ) (s : Store) (r : Row)
      → select (hash_key raw) s.rows ≡ some r
      → is_none r.used_at ≡ true
      → ltb r.expires_at now ≡ false
      → ((consume_token hash_key dumps loads raw now s).0 ≡ answer r)
        × (select (hash_key raw) (consume_token hash_key dumps loads raw now s).1.rows
            ≡ some (record r { used_at = some now }))
  unfolding consume_token
  consume_token-accepted raw now s r e f v =
      let (counted, found) = mark_used-select (hash_key raw) now s.rows r e f in
      ground
        (arith, e, f, v, found, finish-marked r (mark_used (hash_key raw) now s.rows).0 counted)

  consume_token-used :
      (raw : String) (now t : ℕ) (s : Store) (r : Row)
      → select (hash_key raw) s.rows ≡ some r
      → r.used_at ≡ some t
      → (consume_token hash_key dumps loads raw now s).0 ≡ rejected already_used
  unfolding consume_token
  consume_token-used raw now t s r e f = ground arith

  consume_token-expired :
      (raw : String) (now : ℕ) (s : Store) (r : Row)
      → select (hash_key raw) s.rows ≡ some r
      → is_none r.used_at ≡ true
      → ltb r.expires_at now ≡ true
      → (consume_token hash_key dumps loads raw now s).0 ≡ rejected expired
  unfolding consume_token
  consume_token-expired raw now s r e f v = ground arith

  rejected-granted : (e : TokenError) (p : String) (i : Option String) → rejected e ≢ granted p i
  rejected-granted e p i h = cc

  consume_token-invalid :
      (raw : String) (now : ℕ) (s : Store)
      → select (hash_key raw) s.rows ≡ none
      → (consume_token hash_key dumps loads raw now s).0 ≡ rejected invalid
  unfolding consume_token
  consume_token-invalid raw now s e = ground arith

  used_of : (u : Option ℕ) → is_none u ≡ false → (t : ℕ) × (u ≡ some t)
  used_of none h = cc
  used_of (some t) h = (t, refl)

  -- A row that a granted call must have found.
  record IsFresh (raw : String) (now : ℕ) (s : Store) (r : Row) : Type 0 where
    found : select (hash_key raw) s.rows ≡ some r
    unused : is_none r.used_at ≡ true
    valid : ltb r.expires_at now ≡ false

  granted-IsFresh :
      (raw product_id : String) (intake : Option String) (now : ℕ) (s : Store) (row : Option Row)
      → select (hash_key raw) s.rows ≡ row
      → (consume_token hash_key dumps loads raw now s).0 ≡ granted product_id intake
      → (r : Row) × IsFresh raw now s r
  granted-IsFresh raw product_id intake now s none e g =
      absurd
        (rejected-granted invalid product_id intake (sym (consume_token-invalid raw now s e) ∙ g))
  granted-IsFresh raw product_id intake now s (some r) e g = elim (Bool-cases (is_none r.used_at)) [
    | inl unused ↦ elim (Bool-cases (ltb r.expires_at now)) [
      | inl late ↦ absurd (
          rejected-granted expired product_id intake
            (sym (consume_token-expired raw now s r e unused late) ∙ g))
      | inr valid ↦ (r, record { found = e; unused = unused; valid = valid })
    ]
    | inr used ↦
        let (t, at) = used_of r.used_at used in
        absurd (
          rejected-granted already_used product_id intake
            (sym (consume_token-used raw now t s r e at) ∙ g))
  ]

  -- A token that was granted is refused as used from then on, at whatever time it is tried.
  consume_token-once :
      (raw product_id : String) (intake : Option String) (now later : ℕ) (s : Store)
      → (consume_token hash_key dumps loads raw now s).0 ≡ granted product_id intake
      → (consume_token hash_key dumps loads raw later
          (consume_token hash_key dumps loads raw now s).1).0
        ≡ rejected already_used
  consume_token-once raw product_id intake now later s g =
      let (r, fresh) = granted-IsFresh raw product_id intake now s _ refl g in
      let marked = consume_token-accepted raw now s r fresh.found fresh.unused fresh.valid in
      consume_token-used raw later now (consume_token hash_key dumps loads raw now s).1
        (record r { used_at = some now }) marked.1 refl

  abbrev created_row : String → String → Option String → ℕ → ℕ → Row
  created_row raw product_id intake lifetime now = record {
    token_hash = hash_key raw;
    product_id = product_id;
    intake = elim intake [ none ↦ none | some i ↦ some (dumps i) ];
    expires_at = now + lifetime;
    used_at = none;
  }

  create_token-created :
      (raw product_id : String) (intake : Option String) (lifetime now : ℕ) (s : Store)
      → (check_rate_limit product_id now s.rate_limits).0 ≡ true
      → select (hash_key raw) s.rows ≡ none
      → let c = create_token hash_key dumps loads raw product_id intake lifetime now s in
        (c.0 ≡ created raw (now + lifetime))
        × (c.1.rows ≡ s.rows ++ created_row raw product_id intake lifetime now ∷ [])
  unfolding create_token
  create_token-created raw product_id none lifetime now s ok new = ground arith
  create_token-created raw product_id (some i) lifetime now s ok new = ground arith

  -- If the rate limit lets the request through and the hash is new, the token is created, and a
  -- call of `consume_token` that comes first after it answers with the product and the intake of
  -- the request until the lifetime has passed, and is rejected as expired later. The JSON codec
  -- is taken to give back what was encoded.
  pub consume_token-create_token :
      (raw product_id : String) (intake : Option String) (lifetime now later : ℕ) (s : Store)
      → (check_rate_limit product_id now s.rate_limits).0 ≡ true
      → select (hash_key raw) s.rows ≡ none
      → ((text : String) → loads (dumps text) ≡ text)
      → let c = create_token hash_key dumps loads raw product_id intake lifetime now s in
        (c.0 ≡ created raw (now + lifetime))
        × ((consume_token hash_key dumps loads raw later c.1).0
            ≡ (if ltb (now + lifetime) later then rejected expired else granted product_id intake))
  consume_token-create_token raw product_id intake lifetime now later s ok new codec =
      let (made, rows) = create_token-created raw product_id intake lifetime now s ok new in
      let c = create_token hash_key dumps loads raw product_id intake lifetime now s in
      let row = created_row raw product_id intake lifetime now in
      let found : select (hash_key raw) c.1.rows ≡ some row =
        ap (select (hash_key raw)) rows ∙ select-append (hash_key raw) s.rows row new refl in
      (
        made,
        elim (Bool-cases (ltb (now + lifetime) later)) [
          | inl late ↦ rw late (consume_token-expired raw later c.1 row found refl late)
          | inr valid ↦
              rw valid
                ((consume_token-accepted raw later c.1 row found refl valid).0 ∙ decoded intake)
        ],
      )
    where
      decoded :
          (i : Option String)
          → answer (created_row raw product_id i lifetime now) ≡ granted product_id i
      decoded none = refl
      decoded (some i) = ap (λ t. granted product_id (some t)) (codec i)
