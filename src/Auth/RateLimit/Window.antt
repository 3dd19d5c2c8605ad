-- ===== src/Auth/RateLimit/Window.antt =====
-- How many requests `_check_rate_limit` of navigator/auth/session_tokens.py lets through.
use navigator_ai.Prelude.{
  ℕ, ◌≤◌, suc, ◌+◌, ◌*◌, ◌≡◌, refl, ap, sym, ◌∙◌, ltb, String, Bool, ◌&&◌, List, [], ◌∷◌, ◌++◌,
  length, keep_if, length-append, length-keep_if-le, arith, ◌==◌, string_eq, if◌then◌else◌, eq_iff,
}
use navigator_ai.Auth.RateLimit.{Histories, max_tokens, within, recent, check_rate_limit}

pub record Request : Type 0 where
  pub product_id : String
  pub now : ℕ

abbrev pub empty : Histories
empty p = []

-- The times of the requests for `p` that were let through, oldest first.
abbrev noted : String → Request → Bool → List ℕ → List ℕ
noted p r ok passed = if ok && (r.product_id == p) then passed ++ r.now ∷ [] else passed

-- The histories after some requests, and the times of those for `p` that were let through.
unfoldable pub serve : String → Histories → List ℕ → List Request → Histories × List ℕ
serve p limits passed [] = (limits, passed)
serve p limits passed (r ∷ rs) =
    let (ok, next) = check_rate_limit r.product_id r.now limits in
    serve p next (noted p r ok passed) rs

-- The clock does not run backwards.
abbrev IsMonotone : ℕ → List Request → Type 0
IsMonotone t [] = Unit
IsMonotone t (r ∷ rs) = (t ≤ r.now) × IsMonotone r.now rs

abbrev pub last_time : ℕ → List Request → ℕ
last_time t [] = t
last_time t (r ∷ rs) = last_time r.now rs

keep_if-append :
    (p : ℕ → Bool) (xs ys : List ℕ) → keep_if p (xs ++ ys) ≡ keep_if p xs ++ keep_if p ys
keep_if-append p [] ys = refl
keep_if-append p (x ∷ xs) ys = ground (arith, keep_if-append p xs ys)

-- What a later window shows is not touched by dropping what an earlier one does not.
keep_if-recent :
    (t now : ℕ) (xs : List ℕ)
    → t ≤ now
    → keep_if (within now) (recent t xs) ≡ keep_if (within now) xs
unfolding recent
keep_if-recent t now [] h = refl
keep_if-recent t now (x ∷ xs) h = ground (arith, keep_if-recent t now xs h)

-- The history of `p` shows every later window what the requests let through show it.
record Tracks (p : String) (limits : Histories) (passed : List ℕ) (t : ℕ) : Type 0 where
  same : (now : ℕ) → t ≤ now → keep_if (within now) passed ≡ keep_if (within now) (limits p)
  bounded : length (limits p) ≤ max_tokens

Tracks-step :
    (p : String) (limits : Histories) (passed : List ℕ) (t : ℕ) (r : Request)
    → t ≤ r.now
    → Tracks p limits passed t
    → Tracks p
        (check_rate_limit r.product_id r.now limits).1
        (noted p r (check_rate_limit r.product_id r.now limits).0 passed)
        r.now
unfolding check_rate_limit
Tracks-step p limits passed t r m h = record {
  same = λ now later. ground (
    arith,
    h.same now,
    keep_if-recent r.now now (limits p) later,
    keep_if-append (within now) passed (r.now ∷ []),
    keep_if-append (within now) (recent r.now (limits p)) (r.now ∷ []),
    eq_iff r.product_id p,
    eq_iff p r.product_id,
  );
  bounded = ground (
    arith,
    h.bounded,
    length-append {0} (recent r.now (limits p)) (r.now ∷ []),
    length-keep_if-le {0} (within r.now) (limits p),
    eq_iff p r.product_id,
  );
}

Tracks-serve :
    (p : String) (limits : Histories) (passed : List ℕ) (t : ℕ) (rs : List Request)
    → IsMonotone t rs
    → Tracks p limits passed t
    → Tracks p (serve p limits passed rs).0 (serve p limits passed rs).1 (last_time t rs)
unfolding serve
Tracks-serve p limits passed t [] m h = h
Tracks-serve p limits passed t (r ∷ rs) m h =
    Tracks-serve p (check_rate_limit r.product_id r.now limits).1
      (noted p r (check_rate_limit r.product_id r.now limits).0 passed) r.now rs m.1
      (Tracks-step p limits passed t r m.0 h)

-- How many of some times lie less than 60 seconds before `now`, the 60th second being out.
abbrev pub in_last_minute : ℕ → List ℕ → ℕ
in_last_minute now [] = 0
in_last_minute now (t ∷ ts) =
    let rest = in_last_minute now ts in if ltb now (t + 60 * 1000) then suc rest else rest

length-within : (now : ℕ) (ts : List ℕ) → length (keep_if (within now) ts) ≡ in_last_minute now ts
length-within now [] = refl
length-within now (t ∷ ts) = ground (arith, length-within now ts)

-- After any requests for any products, if the clock does not run backwards: of the times at which
-- requests for a product were let through, at most 100 lie less than 60 seconds before any later
-- time, and a request for the product at that time is let through exactly if these are fewer
-- than 100. A time that is 60 seconds old or more does not count.
pub check_rate_limit-in_last_minute :
    (p : String) (rs : List Request) (now : ℕ)
    → IsMonotone 0 rs
    → last_time 0 rs ≤ now
    → let (limits, passed) = serve p empty [] rs in
      (in_last_minute now passed ≤ 100)
      × ((check_rate_limit p now limits).0 ≡ ltb (in_last_minute now passed) 100)
unfolding check_rate_limit recent
check_rate_limit-in_last_minute p rs now m later =
    let start : Tracks p empty [] 0 = record { same = λ now _. refl; bounded = omega arith } in
    let h = Tracks-serve p empty [] 0 rs m start in
    let limits = (serve p empty [] rs).0 in
    let passed = (serve p empty [] rs).1 in
    let shown = sym (length-within now passed) ∙ ap (length {0}) (h.same now later) in
    (
      omega (arith, shown, h.bounded, length-keep_if-le {0} (within now) (limits p)),
      ground (arith, shown),
    )
