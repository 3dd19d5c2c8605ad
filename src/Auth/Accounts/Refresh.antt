-- ===== src/Auth/Accounts/Refresh.antt =====
-- Refresh tokens of navigator/auth/store.py, consumed one after the other and at the same time.
use navigator_ai.Prelude.{
  ℕ, zero, suc, ◌+◌, ◌≡◌, refl, sym, ap, ◌∙◌, ◌⊎◌, inl, inr, String, Bool, true, false, Option,
  none, some, List, [], ◌∷◌, ◌++◌, ltb, Option-cases, arith, ◌==◌, string_eq, eq_iff, beq_refl,
  if◌then◌else◌,
}
use navigator_ai.Auth.Accounts.{
  RefreshToken, AuthStore, invalid_token, expired_token, select, delete, refused, granted, judge,
  is_token, create_refresh_token, revoke_refresh_token, consume_refresh_token, Consumer, reading,
  deleting, answered, round,
}

select-delete :
    (k h : String) (rows : List RefreshToken)
    → select k (delete h rows) ≡ (if h == k then none else select k rows)
unfolding select delete
select-delete k h [] = ground arith
select-delete k h (r ∷ rows) =
    ground (arith, select-delete k h rows, eq_iff r.token_hash h, eq_iff r.token_hash k, eq_iff h k)

select-append :
    (h : String) (rows : List RefreshToken) (r : RefreshToken)
    → select h rows ≡ none
    → r.token_hash ≡ h
    → select h (rows ++ r ∷ []) ≡ some r
unfolding select
select-append h [] r e f = rw (sym f, beq_refl r.token_hash) refl
select-append h (q ∷ rows) r e f = ground (arith, select-append h rows r)

-- The tokens after a call: that of the call is gone.
select-after_call :
    (h k : String) (rows : List RefreshToken)
    → select k (if is_token (select h rows) then delete h rows else rows)
      ≡ (if h == k then none else select k rows)
select-after_call h k rows = by_row (Option-cases (select h rows))
  where
    by_row :
        (select h rows ≡ none) ⊎ ((r : RefreshToken) × (select h rows ≡ some r))
        → select k (if is_token (select h rows) then delete h rows else rows)
          ≡ (if h == k then none else select k rows)
    by_row (inl e) = rw e (ground (arith, e, eq_iff h k))
    by_row (inr (r, e)) = rw e (select-delete k h rows)

module _ (hash : String → String) where
  tokens-consume :
      (token : String) (now : ℕ) (s : AuthStore)
      → (consume_refresh_token hash token now s).1.refresh_tokens ≡ (
          if is_token (select (hash token) s.refresh_tokens)
          then delete (hash token) s.refresh_tokens
          else s.refresh_tokens)
  unfolding consume_refresh_token
  tokens-consume token now s = by_test (is_token (select (hash token) s.refresh_tokens))
    where
      by_test :
          (b : Bool)
          → (if b then revoke_refresh_token hash token s else s).refresh_tokens
            ≡ (if b then delete (hash token) s.refresh_tokens else s.refresh_tokens)
      by_test true = refl
      by_test false = refl

  select-consume :
      (token : String) (now : ℕ) (s : AuthStore) (k : String)
      → select k (consume_refresh_token hash token now s).1.refresh_tokens
        ≡ (if hash token == k then none else select k s.refresh_tokens)
  select-consume token now s k =
      ap (select k) (tokens-consume token now s) ∙ select-after_call (hash token) k s.refresh_tokens

  consume-judge :
      (token : String) (now : ℕ) (s : AuthStore)
      → (consume_refresh_token hash token now s).0
        ≡ judge now (select (hash token) s.refresh_tokens)
  unfolding consume_refresh_token
  consume-judge token now s = refl

  gone : (h : String) (o : Option RefreshToken) → (if h == h then none else o) ≡ none
  gone h o = rw (beq_refl h) refl

  -- Calls one after the other: a call that reads a token leaves it unusable, whether it was granted,
  -- had expired, or was not there, so that the next call for it is refused as invalid; every
  -- other token is as it was.
  consume_refresh_token-once :
      (token other : String) (now later : ℕ) (s : AuthStore)
      → ((consume_refresh_token hash token later (consume_refresh_token hash token now s).1).0
          ≡ refused invalid_token)
        × (select (hash other) (consume_refresh_token hash token now s).1.refresh_tokens
            ≡ (if hash token == hash other then none else select (hash other) s.refresh_tokens))
  unfolding judge
  consume_refresh_token-once token other now later s = (
    consume-judge token later (consume_refresh_token hash token now s).1
        ∙ ap (judge later) (
            select-consume token now s (hash token)
            ∙ gone (hash token) (select (hash token) s.refresh_tokens)),
    select-consume token now s (hash other),
  )

  select-create :
      (token user_id : String) (expires_in now : ℕ) (s : AuthStore)
      → select (hash token) s.refresh_tokens ≡ none
      → select
          (hash token)
          (create_refresh_token hash token user_id expires_in now s).1.refresh_tokens
        ≡ some (record {
          token_hash = hash token;
          user_id = user_id;
          expires_at = now + expires_in;
          created_at = now;
        })
  unfolding create_refresh_token
  select-create token user_id expires_in now s e =
      rw (e, create_refresh_token) (select-append (hash token) s.refresh_tokens _ e refl)

  -- A refresh token that was created under a hash that is not in the table is granted to the user
  -- it was created for, at any time until it expires; later it is refused as expired. It is
  -- granted once: after the first call, any further call, at whatever time, is refused as
  -- invalid. Times are whole numbers.
  pub consume_refresh_token-create :
      (token user_id : String) (expires_in now later again : ℕ) (s : AuthStore)
      → select (hash token) s.refresh_tokens ≡ none
      → let first =
          consume_refresh_token hash token later
            (create_refresh_token hash token user_id expires_in now s).1 in
        (first.0
          ≡ (if ltb (now + expires_in) later then refused expired_token else granted user_id))
        × ((consume_refresh_token hash token again first.1).0 ≡ refused invalid_token)
  unfolding judge
  consume_refresh_token-create token user_id expires_in now later again s e =
      let created = (create_refresh_token hash token user_id expires_in now s).1 in
      (
        consume-judge token later created
            ∙ ap (judge later) (select-create token user_id expires_in now s e),
        (consume_refresh_token-once token token later again created).0,
      )

abbrev pub copies : ℕ → Consumer → List Consumer
copies zero c = []
copies (suc n) c = c ∷ copies n c

abbrev pub grants : List Consumer → ℕ
grants [] = 0
grants (answered (granted u) ∷ cs) = suc (grants cs)
grants (_ ∷ cs) = grants cs

round-reading :
    (n : ℕ) (now : ℕ) (h : String) (r : RefreshToken) (rows : List RefreshToken)
    → select h rows ≡ some r
    → round now (copies n (reading h)) rows ≡ (copies n (deleting h (judge now (some r))), rows)
unfolding round
round-reading zero now h r rows e = refl
round-reading (suc n) now h r rows e = rw (e, round-reading n now h r rows e) refl

grants-round :
    (n : ℕ) (now : ℕ) (h u : String) (rows : List RefreshToken)
    → grants (round now (copies n (deleting h (granted u))) rows).0 ≡ n
unfolding round
grants-round zero now h u rows = refl
grants-round (suc n) now h u rows = ap suc (grants-round n now h u (delete h rows))

-- Calls at the same time: if any number of calls for a token that has not expired have all made their SELECT before the first of
-- them makes its DELETE, every one of them is granted.
pub all_calls_granted :
    (n now : ℕ) (h : String) (r : RefreshToken) (rows : List RefreshToken)
    → select h rows ≡ some r
    → ltb r.expires_at now ≡ false
    → (let selected = round now (copies n (reading h)) rows in
        grants (round now selected.0 selected.1).0 ≡ n)
unfolding judge
all_calls_granted n now h r rows e f =
    let valid : judge now (some r) ≡ granted r.user_id = rw f refl in
    ap (λ p. grants (round now p.0 p.1).0) (round-reading n now h r rows e)
    ∙ (ap (λ c. grants (round now (copies n (deleting h c)) rows).0) valid
        ∙ grants-round n now h r.user_id rows)
