-- ===== src/Auth/Accounts/Users.antt =====
-- `create_user` of navigator/auth/store.py: unique emails and ids, and what is found afterwards.
use navigator_ai.Prelude.{
  ℕ, suc, ◌+◌, ◌≤◌, ◌≡◌, refl, sym, subst, inl, inr, String, Bool, true, false, Option, none, some,
  List, [], ◌∷◌, ◌++◌, ◌||◌, ◌&&◌, not, Bool-cases, arith, ◌==◌, string_eq, eq_iff, if◌then◌else◌,
}
use navigator_ai.Auth.Accounts.{
  Patch, User, AuthStore, user_by_email, user_by_id, get_user, get_user_by_email, is_found,
  create_user, new_user, store_preferences, email_exists, Preferences, Json, set_preferences,
}

abbrev with_email : String → List User → ℕ
with_email e [] = 0
with_email e (u ∷ us) = if u.email == e then suc (with_email e us) else with_email e us

abbrev with_id : String → List User → ℕ
with_id i [] = 0
with_id i (u ∷ us) = if u.user_id == i then suc (with_id i us) else with_id i us

-- No two users have the same email or the same id.
pub record IsUnique (us : List User) : Type 0 where
  pub emails : (e : String) → with_email e us ≤ 1
  pub ids : (i : String) → with_id i us ≤ 1

with_email-append :
    (e : String) (us vs : List User) → with_email e (us ++ vs) ≡ with_email e us + with_email e vs
with_email-append e [] vs = omega arith
with_email-append e (u ∷ us) vs = ground (arith, with_email-append e us vs)

with_id-append :
    (i : String) (us vs : List User) → with_id i (us ++ vs) ≡ with_id i us + with_id i vs
with_id-append i [] vs = omega arith
with_id-append i (u ∷ us) vs = ground (arith, with_id-append i us vs)

with_email-user_by_email :
    (e : String) (us : List User) → is_found (user_by_email e us) ≡ false → with_email e us ≡ 0
unfolding user_by_email
with_email-user_by_email e [] h = refl
with_email-user_by_email e (u ∷ us) h = ground (arith, with_email-user_by_email e us)

with_id-user_by_id :
    (i : String) (us : List User) → is_found (user_by_id i us) ≡ false → with_id i us ≡ 0
unfolding user_by_id
with_id-user_by_id i [] h = refl
with_id-user_by_id i (u ∷ us) h = ground (arith, with_id-user_by_id i us)

with_email-store_preferences :
    (e i json : String) (us : List User)
    → with_email e (store_preferences i json us) ≡ with_email e us
unfolding store_preferences
with_email-store_preferences e i json [] = refl
with_email-store_preferences e i json (u ∷ us) =
    ground (arith, with_email-store_preferences e i json us)

with_id-store_preferences :
    (k i json : String) (us : List User) → with_id k (store_preferences i json us) ≡ with_id k us
unfolding store_preferences
with_id-store_preferences k i json [] = refl
with_id-store_preferences k i json (u ∷ us) = ground (arith, with_id-store_preferences k i json us)

IsUnique-new_user :
    (i p e pw : String) (now : ℕ) (us : List User)
    → is_found (user_by_id i us) ≡ false
    → is_found (user_by_email e us) ≡ false
    → IsUnique us
    → IsUnique (us ++ new_user i p e pw now ∷ [])
IsUnique-new_user i p e pw now us h k q = record {
  emails = λ x. ground (
    arith,
    with_email-append x us (new_user i p e pw now ∷ []),
    with_email-user_by_email e us k,
    q.emails x,
    eq_iff e x,
  );
  ids = λ x. ground (
    arith,
    with_id-append x us (new_user i p e pw now ∷ []),
    with_id-user_by_id i us h,
    q.ids x,
    eq_iff i x,
  );
}

-- The primary key or the unique email is in use.
abbrev is_taken : String → String → AuthStore → Bool
is_taken i e s = is_found (get_user i s) || is_found (get_user_by_email e s)

abbrev with_user : User → AuthStore → AuthStore
with_user u s = record s { users = s.users ++ u ∷ [] }

create_user-taken :
    (i p e pw : String) (now : ℕ) (s : AuthStore)
    → is_taken i e s ≡ true
    → create_user i p e pw now s ≡ (some email_exists, s)
unfolding create_user
create_user-taken i p e pw now s h = rw h refl

create_user-free :
    (i p e pw : String) (now : ℕ) (s : AuthStore)
    → is_taken i e s ≡ false
    → create_user i p e pw now s ≡ (none, with_user (new_user i p e pw now) s)
unfolding create_user
create_user-free i p e pw now s h = rw h refl

IsUnique-create_user :
    (i p e pw : String) (now : ℕ) (s : AuthStore)
    → IsUnique s.users
    → IsUnique (create_user i p e pw now s).1.users
IsUnique-create_user i p e pw now s q = elim (Bool-cases (is_taken i e s)) [
  | inl h ↦ subst (λ r. IsUnique r.1.users) (sym (create_user-taken i p e pw now s h)) q
  | inr h ↦
      subst (λ r. IsUnique r.1.users) (sym (create_user-free i p e pw now s h))
        (IsUnique-new_user i p e pw now s.users (ground (arith, h)) (ground (arith, h)) q)
]

found_new :
    (x : String) (u : User) (us : List User)
    → is_found (user_by_email u.email us) ≡ false
    → user_by_email x (us ++ u ∷ []) ≡ (if u.email == x then some u else user_by_email x us)
unfolding user_by_email
found_new x u [] h = refl
found_new x u (v ∷ us) h =
    ground (arith, found_new x u us, eq_iff v.email u.email, eq_iff v.email x, eq_iff u.email x)

-- Creating a user fails, with the table unchanged, exactly if the email or the id is in use; otherwise the new user, with
-- no preferences, is found under its email, and every other email finds what it found before.
create_user-get_user_by_email :
    (i p e pw : String) (now : ℕ) (s : AuthStore) (x : String)
    → ((create_user i p e pw now s).0 ≡ (if is_taken i e s then some email_exists else none))
      × (get_user_by_email x (create_user i p e pw now s).1 ≡ (
          if not (is_taken i e s) && (e == x)
          then some (new_user i p e pw now)
          else get_user_by_email x s))
create_user-get_user_by_email i p e pw now s x = elim (Bool-cases (is_taken i e s)) [
  | inl h ↦ rw (create_user-taken i p e pw now s h, h) (refl, refl)
  | inr h ↦ rw (create_user-free i p e pw now s h, h) (refl, found_after h)
]
  where
    found_after :
        is_taken i e s ≡ false
        → user_by_email x (s.users ++ new_user i p e pw now ∷ [])
          ≡ (if e == x then some (new_user i p e pw now) else user_by_email x s.users)
    found_after h = found_new x (new_user i p e pw now) s.users (ground (arith, h))

-- The calls that write users.
pub data Write : Type 0 where
  creates : String → String → String → String → ℕ → Write
  sets : String → Patch → Write

module _ (loads : String → Option Json) (dumps : Preferences → String) where
  abbrev pub writes : List Write → AuthStore → AuthStore
  writes [] s = s
  writes (creates i p e pw now ∷ ws) s = writes ws (create_user i p e pw now s).1
  writes (sets i patch ∷ ws) s = writes ws (set_preferences loads dumps i patch s).1

  IsUnique-set_preferences :
      (i : String) (patch : Patch) (s : AuthStore)
      → IsUnique s.users
      → IsUnique (set_preferences loads dumps i patch s).1.users
  unfolding set_preferences
  IsUnique-set_preferences i patch s q = record {
    emails = λ e. omega (arith, q.emails e, with_email-store_preferences e i _ s.users);
    ids = λ k. omega (arith, q.ids k, with_id-store_preferences k i _ s.users);
  }

  -- Whatever users are created and whatever preferences are set, in any order, no two users ever
  -- have the same email or the same id.
  writes-IsUnique :
      (ws : List Write) (s : AuthStore) → IsUnique s.users → IsUnique (writes ws s).users
  writes-IsUnique [] s q = q
  writes-IsUnique (creates i p e pw now ∷ ws) s q =
      writes-IsUnique ws (create_user i p e pw now s).1 (IsUnique-create_user i p e pw now s q)
  writes-IsUnique (sets i patch ∷ ws) s q =
      writes-IsUnique ws (set_preferences loads dumps i patch s).1
        (IsUnique-set_preferences i patch s q)
