-- ===== src/Auth/Accounts.antt =====
-- navigator/auth/store.py: users, their preferences, and refresh tokens. The tables are lists of
-- rows; ids, tokens, password hashes and times are arguments; the token hash and the JSON codec
-- are parameters. A value in a JSON object is taken as `bool` takes it.
pub mod Users
pub mod Preferences
pub mod RoundTrip
pub mod Refresh
mod Tests
use navigator_ai.Prelude.{
  ℕ, ◌+◌, String, Bool, true, false, Option, none, some, List, [], ◌∷◌, ◌++◌, ◌||◌, keep_if, not,
  ltb, ◌==◌, string_eq, if◌then◌else◌,
}

abbrev pub Preferences : Type 0
Preferences = List (String × Bool)

abbrev pub default_preferences : Preferences
default_preferences =
    ("hide_get_started_card", false)
    ∷ ("onboarding_wizard_dismissed", false)
    ∷ ("onboarding_wizard_completed", false)
    ∷ []

pub record User : Type 0 where
  pub user_id : String
  pub product_id : String
  pub email : String
  pub password_hash : String
  pub created_at : ℕ
  pub preferences_json : String

pub record RefreshToken : Type 0 where
  pub token_hash : String
  pub user_id : String
  pub expires_at : ℕ
  pub created_at : ℕ

pub record AuthStore : Type 0 where
  pub users : List User
  pub refresh_tokens : List RefreshToken

pub data AuthError : Type 0 where
  email_exists duplicate_token invalid_token expired_token : AuthError

-- `SELECT * FROM users WHERE …` and its first row.
unfoldable pub user_by_email : String → List User → Option User
user_by_email email [] = none
user_by_email email (u ∷ us) =
    let rest = user_by_email email us in if u.email == email then some u else rest

unfoldable pub user_by_id : String → List User → Option User
user_by_id user_id [] = none
user_by_id user_id (u ∷ us) =
    let rest = user_by_id user_id us in if u.user_id == user_id then some u else rest

abbrev pub get_user_by_email : String → AuthStore → Option User
get_user_by_email email s = user_by_email email s.users

abbrev pub get_user : String → AuthStore → Option User
get_user user_id s = user_by_id user_id s.users

abbrev pub is_found : Option User → Bool
is_found none = false
is_found (some u) = true

abbrev pub new_user : String → String → String → String → ℕ → User
new_user user_id product_id email password_hash now = record {
  user_id = user_id;
  product_id = product_id;
  email = email;
  password_hash = password_hash;
  created_at = now;
  preferences_json = "{}";
}

-- `INSERT INTO users`, which fails on an id or an email that is there; `password_hash` is what
-- bcrypt makes of the password.
unfoldable pub create_user :
    String → String → String → String → ℕ → AuthStore → Option AuthError × AuthStore
unfolding user_by_email user_by_id
create_user user_id product_id email password_hash now s =
    if is_found (get_user user_id s) || is_found (get_user_by_email email s)
    then (some email_exists, s)
    else (
      none,
      record s { users = s.users ++ new_user user_id product_id email password_hash now ∷ [] },
    )

abbrev pub get_pref : {A : Type 0} → String → List (String × A) → Option A
get_pref key [] = none
get_pref key ((k, b) ∷ prefs) = if k == key then some b else get_pref key prefs

-- The assignment `out[key] = b`.
unfoldable pub set_pref : String → Bool → Preferences → Preferences
set_pref key b [] = (key, b) ∷ []
set_pref key b ((k, c) ∷ prefs) =
    let rest = set_pref key b prefs in if k == key then (k, b) ∷ prefs else (k, c) ∷ rest

abbrev pub keys : Preferences → List String
keys [] = []
keys ((k, b) ∷ prefs) = k ∷ keys prefs

-- A value in a JSON object. Of a number the absolute value counts, of a list or an object its
-- length.
pub data Value : Type 0 where
  null : Value
  boolean : Bool → Value
  number : ℕ → Value
  text : String → Value
  sequence : ℕ → Value

-- `bool(value)`
unfoldable pub truth : Value → Bool
truth null = false
truth (boolean b) = b
truth (number n) = ltb 0 n
truth (text t) = not (t == "")
truth (sequence n) = ltb 0 n

abbrev pub Patch : Type 0
Patch = List (String × Value)

-- `for key in names: if key in patch: out[key] = bool(patch[key])`
unfoldable pub update_keys : List String → Patch → Preferences → Preferences
unfolding set_pref
update_keys [] patch out = out
update_keys (key ∷ names) patch out =
    update_keys names patch
      (elim (get_pref key patch) [ some v ↦ set_pref key (truth v) out | none ↦ out ])

-- `UPDATE users SET preferences_json = ? WHERE user_id = ?`
unfoldable pub store_preferences : String → String → List User → List User
store_preferences user_id json [] = []
store_preferences user_id json (u ∷ us) =
    let rest = store_preferences user_id json us in
    if u.user_id == user_id then record u { preferences_json = json } ∷ rest else u ∷ rest

-- What JSON text stands for, if it is JSON.
pub data Json : Type 0 where
  object : Patch → Json
  not_object : Json

module _ (loads : String → Option Json) (dumps : Preferences → String) where
  unfoldable pub merge_preferences : String → Preferences
  unfolding update_keys
  merge_preferences raw = if raw == "" then default_preferences else elim (loads raw) [
    | some (object stored) ↦ update_keys (keys default_preferences) stored default_preferences
    | _ ↦ default_preferences
  ]

  unfoldable pub get_preferences : String → AuthStore → Preferences
  unfolding merge_preferences user_by_id
  get_preferences user_id s = elim (get_user user_id s) [
    | none ↦ default_preferences
    | some u ↦ merge_preferences (if u.preferences_json == "" then "{}" else u.preferences_json)
  ]

  unfoldable pub set_preferences : String → Patch → AuthStore → Preferences × AuthStore
  unfolding get_preferences store_preferences
  set_preferences user_id patch s =
      let current = update_keys (keys default_preferences) patch (get_preferences user_id s) in
      (current, record s { users = store_preferences user_id (dumps current) s.users })

-- `SELECT user_id, expires_at FROM refresh_tokens WHERE token_hash = ?`
unfoldable pub select : String → List RefreshToken → Option RefreshToken
select h [] = none
select h (r ∷ rows) = let rest = select h rows in if r.token_hash == h then some r else rest

-- `DELETE FROM refresh_tokens WHERE token_hash = ?`
unfoldable pub delete : String → List RefreshToken → List RefreshToken
delete h rows = keep_if (λ r. not (r.token_hash == h)) rows

pub data Consumed : Type 0 where
  refused : AuthError → Consumed
  granted : String → Consumed

-- What the code makes of the row it read.
unfoldable pub judge : ℕ → Option RefreshToken → Consumed
judge now none = refused invalid_token
judge now (some r) = if ltb r.expires_at now then refused expired_token else granted r.user_id

abbrev pub is_token : Option RefreshToken → Bool
is_token none = false
is_token (some r) = true

module _ (hash_refresh_token : String → String) where
  unfoldable pub create_refresh_token :
      String → String → ℕ → ℕ → AuthStore → Option AuthError × AuthStore
  unfolding select
  create_refresh_token token user_id expires_in now s =
      let h = hash_refresh_token token in
      if is_token (select h s.refresh_tokens) then (some duplicate_token, s) else (
        none,
        record s {
          refresh_tokens =
              s.refresh_tokens
              ++ record {
                token_hash = h;
                user_id = user_id;
                expires_at = now + expires_in;
                created_at = now;
              }
                ∷ [];
        },
      )

  unfoldable pub revoke_refresh_token : String → AuthStore → AuthStore
  unfolding delete
  revoke_refresh_token token s = record s {
    refresh_tokens = delete (hash_refresh_token token) s.refresh_tokens;
  }

  -- One call with nothing in between; a token that is not there has no row to delete.
  unfoldable pub consume_refresh_token : String → ℕ → AuthStore → Consumed × AuthStore
  unfolding judge select revoke_refresh_token
  consume_refresh_token token now s =
      let row = select (hash_refresh_token token) s.refresh_tokens in
      (judge now row, if is_token row then revoke_refresh_token token s else s)

-- A call of `consume_refresh_token` before its SELECT, before its DELETE, and when it returns.
pub data Consumer : Type 0 where
  reading : String → Consumer
  deleting : String → Consumed → Consumer
  answered : Consumed → Consumer

unfoldable pub consumer_step : ℕ → Consumer → List RefreshToken → Consumer × List RefreshToken
unfolding select judge delete
consumer_step now (reading h) rows =
    let row = select h rows in
    (if is_token row then deleting h (judge now row) else answered (judge now row), rows)
consumer_step now (deleting h c) rows = (answered c, delete h rows)
consumer_step now (answered c) rows = (answered c, rows)

-- Every call takes one step, in turn.
unfoldable pub round : ℕ → List Consumer → List RefreshToken → List Consumer × List RefreshToken
unfolding consumer_step
round now [] rows = ([], rows)
round now (c ∷ cs) rows =
    let (c', rows') = consumer_step now c rows in
    let (cs', rows'') = round now cs rows' in (c' ∷ cs', rows'')
