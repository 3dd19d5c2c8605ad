-- ===== src/Auth/Accounts/Preferences.antt =====
-- `get_preferences` and `set_preferences` of navigator/auth/store.py.
use mathlib.Core.List.{head-eq_of_cons-eq, tail-eq_of_cons-eq}
use navigator_ai.Prelude.{
  ◌≡◌, refl, sym, ◌∙◌, subst, inl, inr, String, Bool, true, Option, none, some, List, [], ◌∷◌,
  Bool-cases, arith, contains, ◌==◌, string_eq, eq_iff, if◌then◌else◌,
}
use navigator_ai.Auth.Accounts.{
  User, AuthStore, Value, boolean, truth, Patch, user_by_id, get_user, Preferences as Prefs,
  default_preferences, keys, get_pref, set_pref, update_keys, store_preferences, Json, object,
  not_object, merge_preferences, get_preferences, set_preferences,
}

-- The value that a patch gives, or the one there was.
abbrev pub patched : Option Value → Option Bool → Option Bool
patched (some v) old = some (truth v)
patched none old = old

keys-set_pref :
    (key : String) (b : Bool) (p : Prefs)
    → contains (keys p) key ≡ true
    → keys (set_pref key b p) ≡ keys p
unfolding set_pref
keys-set_pref key b [] h = cc
keys-set_pref key b ((j, c) ∷ p) h = ground (arith, keys-set_pref key b p)

abbrev one_key : String → Patch → Prefs → Prefs
one_key key patch out = elim (get_pref key patch) [
  | some v ↦ set_pref key (truth v) out
  | none ↦ out
]

keys-one_key :
    (key : String) (patch : Patch) (out : Prefs)
    → contains (keys out) key ≡ true
    → keys (one_key key patch out) ≡ keys out
keys-one_key key patch out h = by_patch (get_pref key patch)
  where
    by_patch :
        (o : Option Value)
        → keys (elim o [ some v ↦ set_pref key (truth v) out | none ↦ out ]) ≡ keys out
    by_patch none = refl
    by_patch (some v) = keys-set_pref key (truth v) out h

abbrev AllIn : List String → List String → Type 0
AllIn [] ks = Unit {0}
AllIn (n ∷ ns) ks = (contains ks n ≡ true) × AllIn ns ks

keys-update_keys :
    (names : List String) (patch : Patch) (out : Prefs)
    → AllIn names (keys out)
    → keys (update_keys names patch out) ≡ keys out
unfolding update_keys
keys-update_keys [] patch out a = refl
keys-update_keys (n ∷ ns) patch out (h, a) =
    let e = keys-one_key n patch out h in
    keys-update_keys ns patch (one_key n patch out) (subst (AllIn ns) (sym e) a) ∙ e

default_keys_there : AllIn (keys default_preferences) (keys default_preferences)
default_keys_there = (refl, (refl, (refl, tt)))

-- Preferences as they are read from JSON.
abbrev pub as_values : Prefs → Patch
as_values [] = []
as_values ((k, b) ∷ p) = (k, boolean b) ∷ as_values p

-- Preferences with the default keys are three values.
pub three_values :
    (p : Prefs)
    → keys p ≡ keys default_preferences
    → update_keys (keys default_preferences) (as_values p) default_preferences ≡ p
unfolding update_keys set_pref truth
three_values [] e = cc
three_values (a ∷ []) e = cc
three_values (a ∷ b ∷ []) e = cc
three_values ((k, a) ∷ (l, b) ∷ (m, c) ∷ []) e =
    let f = tail-eq_of_cons-eq e in
    rw (head-eq_of_cons-eq e, head-eq_of_cons-eq f, head-eq_of_cons-eq (tail-eq_of_cons-eq f)) refl
three_values (a ∷ b ∷ c ∷ d ∷ p) e = cc

abbrev pub update_json : String → Option User → Option User
update_json json none = none
update_json json (some u) = some (record u { preferences_json = json })

pub user_by_id-store_preferences :
    (j i json : String) (us : List User)
    → user_by_id j (store_preferences i json us)
      ≡ (if i == j then update_json json (user_by_id j us) else user_by_id j us)
unfolding user_by_id store_preferences
user_by_id-store_preferences j i json [] = ground arith
user_by_id-store_preferences j i json (u ∷ us) = ground (
  arith,
  user_by_id-store_preferences j i json us,
  eq_iff u.user_id i,
  eq_iff u.user_id j,
  eq_iff i j,
)

module _ (loads : String → Option Json) (dumps : Prefs → String) where
  keys-merge_preferences :
      (raw : String) → keys (merge_preferences loads dumps raw) ≡ keys default_preferences
  unfolding merge_preferences
  keys-merge_preferences raw = elim (Bool-cases (raw == "")) [
    | inl e ↦ rw e refl
    | inr e ↦ rw e (of_json (loads raw))
  ]
    where
      of_json :
          (o : Option Json)
          → keys (elim o [
            | some (object stored) ↦
                update_keys (keys default_preferences) stored default_preferences
            | _ ↦ default_preferences
          ])
            ≡ keys default_preferences
      of_json none = refl
      of_json (some not_object) = refl
      of_json (some (object stored)) =
          keys-update_keys (keys default_preferences) stored default_preferences default_keys_there

  keys-get_preferences :
      (i : String) (s : AuthStore)
      → keys (get_preferences loads dumps i s) ≡ keys default_preferences
  unfolding get_preferences
  keys-get_preferences i s = of_user (get_user i s)
    where
      of_user :
          (o : Option User)
          → keys (elim o [
            | none ↦ default_preferences
            | some u ↦
                merge_preferences loads dumps
                  (if u.preferences_json == "" then "{}" else u.preferences_json)
          ])
            ≡ keys default_preferences
      of_user none = refl
      of_user (some u) = keys-merge_preferences _

  pub preferences-HasDefaultKeys :
      (i : String) (patch : Patch) (s : AuthStore)
      → (keys (get_preferences loads dumps i s) ≡ keys default_preferences)
        × (keys (set_preferences loads dumps i patch s).0 ≡ keys default_preferences)
  unfolding set_preferences
  preferences-HasDefaultKeys i patch s =
      let e = keys-get_preferences i s in
      (
        e,
        keys-update_keys (keys default_preferences) patch (get_preferences loads dumps i s)
              (subst (AllIn (keys default_preferences)) (sym e) default_keys_there)
            ∙ e,
      )
