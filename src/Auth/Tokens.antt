-- ===== src/Auth/Tokens.antt =====
-- `create_token` and `consume_token` of navigator/auth/session_tokens.py, and consumers that run
-- at the same time. The table is a list of rows; an intake that is missing or empty is `none`; the random token, the hash function and the JSON
-- codec are parameters or arguments, and times are numbers, compared as the code compares dates.
pub mod RoundTrip
pub mod Single
mod Tests
use navigator_ai.Prelude.{
  ℕ, zero, suc, ◌+◌, String, Bool, true, false, Option, none, some, List, [], ◌∷◌, ◌++◌, ◌≡◌, ltb,
  ◌==◌, string_eq, nat_eq, if◌then◌else◌,
}
use navigator_ai.Auth.RateLimit.{Histories, check_rate_limit}

pub record Row : Type 0 where
  pub token_hash : String
  pub product_id : String
  pub intake : Option String
  pub expires_at : ℕ
  pub used_at : Option ℕ

pub record Store : Type 0 where
  pub rows : List Row
  pub rate_limits : Histories

pub data TokenError : Type 0 where
  rate_limited duplicate_key invalid already_used expired : TokenError

abbrev pub is_none : Option ℕ → Bool
is_none none = true
is_none (some t) = false

-- `SELECT … WHERE token_hash = ?`, and the row that `fetchone` takes.
unfoldable pub select : String → List Row → Option Row
select h [] = none
select h (r ∷ rows) = let rest = select h rows in if r.token_hash == h then some r else rest

-- `UPDATE … SET used_at = ? WHERE token_hash = ? AND used_at IS NULL`, with its row count.
unfoldable pub mark_used : String → ℕ → List Row → ℕ × List Row
mark_used h now [] = (0, [])
mark_used h now (r ∷ rows) =
    let (n, rest) = mark_used h now rows in
    if r.token_hash == h
    then if is_none r.used_at
      then (suc n, record r { used_at = some now } ∷ rest)
      else (n, r ∷ rest)
    else (n, r ∷ rest)

-- `INSERT`, which fails on a hash that is there: it is the primary key.
insert : Row → Store → (Option TokenError) × Store
unfolding select
insert r s = elim (select r.token_hash s.rows) [
  | some old ↦ (some duplicate_key, s)
  | none ↦ (none, record s { rows = s.rows ++ r ∷ [] })
]

pub data Created : Type 0 where
  not_created : TokenError → Created
  created : String → ℕ → Created

pub data Consumed : Type 0 where
  rejected : TokenError → Consumed
  granted : String → Option String → Consumed

-- What the checks between SELECT and UPDATE make of the row.
pub data Checked : Type 0 where
  refused : TokenError → Checked
  accepted : Row → Checked

unfoldable pub check_row : ℕ → Option Row → Checked
check_row now none = refused invalid
check_row now (some r) =
    if is_none r.used_at
    then if ltb r.expires_at now then refused expired else accepted r
    else refused already_used

-- What follows the UPDATE.
unfoldable pub finish : Row → ℕ → Consumed
finish r zero = rejected already_used
finish r (suc n) = granted r.product_id r.intake

module _ (hash_key : String → String) (dumps loads : String → String) where
  stored : Option String → Option String
  stored none = none
  stored (some intake) = some (dumps intake)

  loaded : Consumed → Consumed
  loaded (granted p (some text)) = granted p (some (loads text))
  loaded c = c

  unfoldable pub create_token : String → String → Option String → ℕ → ℕ → Store → Created × Store
  unfolding stored insert
  create_token raw product_id intake lifetime now s =
      let (ok, limits) = check_rate_limit product_id now s.rate_limits in
      let s' = record s { rate_limits = limits } in
      let row : Row = record {
        token_hash = hash_key raw;
        product_id = product_id;
        intake = stored intake;
        expires_at = now + lifetime;
        used_at = none;
      } in
      if ok
      then (let (error, s'') = insert row s' in
          (elim error [ some e ↦ not_created e | none ↦ created raw (now + lifetime) ], s''))
      else (not_created rate_limited, s')

  after_check : String → ℕ → Checked → List Row → Consumed × List Row
  unfolding mark_used finish loaded
  after_check h now (refused e) rows = (rejected e, rows)
  after_check h now (accepted r) rows =
      let (n, rows') = mark_used h now rows in (loaded (finish r n), rows')

  -- One call with nothing in between; the clock is read once.
  unfoldable pub consume_token : String → ℕ → Store → Consumed × Store
  unfolding select check_row after_check
  consume_token raw now s =
      let h = hash_key raw in
      let (result, rows) = after_check h now (check_row now (select h s.rows)) s.rows in
      (result, record s { rows = rows })

-- A call of `consume_token` between its two statements, each of which is atomic in the database.
pub data Consumer : Type 0 where
  reading : String → Consumer
  marking : String → Row → Consumer
  answered : String → Consumed → Consumer

pub record System : Type 0 where
  pub rows : List Row
  pub consumers : List Consumer

unfoldable pub consumer_step : Consumer → ℕ → List Row → Consumer × List Row
unfolding select check_row mark_used finish
consumer_step (reading h) now rows = (
  elim (check_row now (select h rows)) [
    | refused e ↦ answered h (rejected e)
    | accepted r ↦ marking h r
  ],
  rows,
)
consumer_step (marking h r) now rows =
    let (n, rows') = mark_used h now rows in (answered h (finish r n), rows')
consumer_step (answered h c) now rows = (answered h c, rows)

unfoldable pub after_step : List Consumer → Consumer → List Consumer → ℕ → System → System
unfolding consumer_step
after_step cs c ds now s =
    let (c', rows) = consumer_step c now s.rows in
    record { rows = rows; consumers = cs ++ (c' ∷ ds) }

-- A new token, a new call, or a step of any call at any time.
pub data Step (s t : System) : Type 0 where
  inserted :
      (r : Row)
      → r.used_at ≡ none
      → select r.token_hash s.rows ≡ none
      → t ≡ record s { rows = s.rows ++ r ∷ [] }
      → Step s t
  called : (h : String) → t ≡ record s { consumers = s.consumers ++ reading h ∷ [] } → Step s t
  moved :
      (cs : List Consumer) (c : Consumer) (ds : List Consumer) (now : ℕ)
      → s.consumers ≡ cs ++ (c ∷ ds)
      → t ≡ after_step cs c ds now s
      → Step s t

pub data Reach (s : System) : System → Type 0 where
  here : Reach s s
  next : {t u : System} → Reach s t → Step t u → Reach s u

abbrev pub no_tokens : System
no_tokens = record { rows = []; consumers = [] }
