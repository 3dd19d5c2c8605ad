-- ===== src/Auth/Accounts/Tests.antt =====
-- Two users with preferences, and a refresh token that is used twice, in turn and at once.
use Prim.Native.String.{◌++◌ as ◌+s◌}
use navigator_ai.Prelude.{
  ◌≡◌, refl, nat_eq, String, true, false, Option, some, List, [], ◌∷◌, ltb, string_eq,
  if◌then◌else◌, arith,
}
use navigator_ai.Auth.Accounts.{
  AuthStore, boolean, number, text, Patch, truth, set_pref, update_keys, merge_preferences,
  new_user, Preferences, Json, object, get_preferences, set_preferences, refused, granted,
  expired_token, invalid_token, select, create_refresh_token, consume_refresh_token, round, reading,
}
use navigator_ai.Auth.Accounts.Users.{IsUnique, Write, creates, sets}
use navigator_ai.Auth.Accounts.Refresh.{
  copies, grants, consume_refresh_token-create, all_calls_granted,
}

abbrev store : AuthStore
store = record {
  users = new_user "u1" "crm" "ann@crm.io" "x" 0 ∷ new_user "u2" "crm" "bob@crm.io" "y" 1 ∷ [];
  refresh_tokens = [];
}

abbrev empty : AuthStore
empty = record { users = []; refresh_tokens = [] }

-- One stored object, and a patch with values of other types.
abbrev loads : String → Option Json
loads s = some (object (("hide_get_started_card", boolean true) ∷ []))

abbrev dumps : Preferences → String
dumps p = "{...}"

abbrev patch : Patch
patch =
    ("onboarding_wizard_completed", number 2)
    ∷ ("hide_get_started_card", text "")
    ∷ ("theme", boolean true)
    ∷ []

patch-truths :
    (set_preferences loads dumps "u1" patch store).0
    ≡ ("hide_get_started_card", false)
      ∷ ("onboarding_wizard_dismissed", false)
      ∷ ("onboarding_wizard_completed", true)
      ∷ []
unfolding set_preferences get_preferences merge_preferences update_keys set_pref truth
patch-truths = refl

abbrev some_writes : List Write
some_writes =
    creates "u1" "crm" "ann@crm.io" "x" 0
    ∷ creates "u2" "crm" "ann@crm.io" "y" 1
    ∷ sets "u1" patch
    ∷ []

empty-IsUnique : IsUnique empty.users
empty-IsUnique = record { emails = λ e. omega arith; ids = λ i. omega arith }

abbrev hash : String → String
hash token = "#" +s token

abbrev with_token : AuthStore
with_token = record store {
  refresh_tokens =
      record { token_hash = "#t1"; user_id = "u1"; expires_at = 100; created_at = 0 } ∷ [];
}

consume_refresh_token-create_example :
    let first =
      consume_refresh_token hash "t2" 50 (create_refresh_token hash "t2" "u1" 40 10 with_token).1 in
    (first.0 ≡ (if ltb 50 50 then refused expired_token else granted "u1"))
    × ((consume_refresh_token hash "t2" 50 first.1).0 ≡ refused invalid_token)
unfolding select
consume_refresh_token-create_example =
    consume_refresh_token-create hash "t2" "u1" 40 10 50 50 with_token refl

all_calls_granted_example :
    let selected = round 10 (copies 2 (reading "#t1")) with_token.refresh_tokens in
    grants (round 10 selected.0 selected.1).0 ≡ 2
unfolding select
all_calls_granted_example =
    all_calls_granted 2 10 "#t1"
      (record { token_hash = "#t1"; user_id = "u1"; expires_at = 100; created_at = 0 })
      with_token.refresh_tokens refl refl
