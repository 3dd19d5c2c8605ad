-- ===== src/Auth/Accounts/RoundTrip.antt =====
-- Preferences that are set in navigator/auth/store.py, read again.
use navigator_ai.Prelude.{
  ◌≡◌, refl, sym, ap, ◌∙◌, inl, inr, String, true, false, Option, none, some, Bool-cases, ◌==◌,
  string_eq, eq_iff, if◌then◌else◌,
}
use navigator_ai.Auth.Accounts.{
  User, AuthStore, Patch, user_by_id, get_user, is_found, Preferences as Prefs, default_preferences,
  keys, store_preferences, Json, object, merge_preferences, get_preferences, set_preferences,
}
use navigator_ai.Auth.Accounts.Preferences.{
  as_values, three_values, update_json, user_by_id-store_preferences, preferences-HasDefaultKeys,
}

module _ (loads : String → Option Json) (dumps : Prefs → String)
    (loads-dumps : (p : Prefs)
      → keys p ≡ keys default_preferences
      → loads (dumps p) ≡ some (object (as_values p)))
    (dumps_not_empty : (p : Prefs) → (dumps p == "") ≡ false) where
  merge_preferences-dumps :
      (p : Prefs) → keys p ≡ keys default_preferences → merge_preferences loads dumps (dumps p) ≡ p
  unfolding merge_preferences
  merge_preferences-dumps p e = rw (dumps_not_empty p, loads-dumps p e) (three_values p e)

  -- What is read of a user record.
  read_user : Option User → Prefs
  read_user none = default_preferences
  read_user (some u) =
      merge_preferences loads dumps (if u.preferences_json == "" then "{}" else u.preferences_json)

  get_preferences-read_user :
      (i : String) (s : AuthStore) → get_preferences loads dumps i s ≡ read_user (get_user i s)
  unfolding get_preferences read_user
  get_preferences-read_user i s = of_user (get_user i s)
    where
      of_user :
          (o : Option User)
          → (elim o [
            | none ↦ default_preferences
            | some u ↦
                merge_preferences loads dumps
                  (if u.preferences_json == "" then "{}" else u.preferences_json)
          ])
            ≡ read_user o
      of_user none = refl
      of_user (some u) = refl

  read_user-update_json :
      (p : Prefs) (o : Option User)
      → keys p ≡ keys default_preferences
      → read_user (update_json (dumps p) o) ≡ (if is_found o then p else default_preferences)
  unfolding read_user
  read_user-update_json p none e = refl
  read_user-update_json p (some u) e = rw (dumps_not_empty p) (merge_preferences-dumps p e)

  users-set_preferences :
      (i : String) (patch : Patch) (s : AuthStore)
      → (set_preferences loads dumps i patch s).1.users
        ≡ store_preferences i (dumps (set_preferences loads dumps i patch s).0) s.users
  unfolding set_preferences
  users-set_preferences i patch s = refl

  -- With a JSON codec that gives back the preferences it encoded, from a text that is not empty: after the preferences of a user are set, reading
  -- them gives what setting them returned, and reading any other user's gives what it gave before. For a
  -- user that does not exist nothing is stored, and the defaults are read.
  get_preferences-set_preferences :
      (i j : String) (patch : Patch) (s : AuthStore)
      → get_preferences loads dumps j (set_preferences loads dumps i patch s).1 ≡ (
          if i == j
          then (if is_found (get_user i s)
              then (set_preferences loads dumps i patch s).0
              else default_preferences)
          else get_preferences loads dumps j s)
  get_preferences-set_preferences i j patch s = elim (Bool-cases (i == j)) [
    | inl e ↦
        after_set e
        ∙ (ap (λ b. if b then written else default_preferences)
              (ap (λ k. is_found (user_by_id k s.users)) (sym ((eq_iff i j).0 e)))
            ∙ sym (same_user e))
    | inr e ↦
        get_preferences-read_user j (set_preferences loads dumps i patch s).1
        ∙ (ap read_user (stored ∙ other_row e)
            ∙ (sym (get_preferences-read_user j s) ∙ sym (other_user e)))
  ]
    where
      written : Prefs
      written = (set_preferences loads dumps i patch s).0

      stored :
          get_user j (set_preferences loads dumps i patch s).1
          ≡ (if i == j then update_json (dumps written) (get_user j s) else get_user j s)
      stored =
          ap (user_by_id j) (users-set_preferences i patch s)
          ∙ user_by_id-store_preferences j i (dumps written) s.users

      same_row :
          (i == j) ≡ true
          → (if i == j then update_json (dumps written) (get_user j s) else get_user j s)
            ≡ update_json (dumps written) (get_user j s)
      same_row e = rw e refl

      other_row :
          (i == j) ≡ false
          → (if i == j then update_json (dumps written) (get_user j s) else get_user j s)
            ≡ get_user j s
      other_row e = rw e refl

      after_set :
          (i == j) ≡ true
          → get_preferences loads dumps j (set_preferences loads dumps i patch s).1
            ≡ (if is_found (get_user j s) then written else default_preferences)
      after_set e =
          get_preferences-read_user j (set_preferences loads dumps i patch s).1
          ∙ (ap read_user (stored ∙ same_row e)
              ∙ read_user-update_json written (get_user j s)
                  (preferences-HasDefaultKeys loads dumps i patch s).1)

      same_user :
          (i == j) ≡ true
          → (if i == j
              then (if is_found (get_user i s) then written else default_preferences)
              else get_preferences loads dumps j s)
            ≡ (if is_found (get_user i s) then written else default_preferences)
      same_user e = rw e refl

      other_user :
          (i == j) ≡ false
          → (if i == j
              then (if is_found (get_user i s) then written else default_preferences)
              else get_preferences loads dumps j s)
            ≡ get_preferences loads dumps j s
      other_user e = rw e refl
