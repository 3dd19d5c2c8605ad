-- ===== src/Auth/Tokens/Tests.antt =====
-- One token, created and consumed; and two calls for it at the same time.
use Prim.Native.String.{◌++◌ as ◌+s◌}
use navigator_ai.Prelude.{◌≤◌, ◌≡◌, refl, String, none, some, [], ◌∷◌}
use navigator_ai.Auth.RateLimit.{check_rate_limit}
use navigator_ai.Auth.RateLimit.Window.{empty}
use navigator_ai.Auth.Tokens.{
  Row, Store, created, granted, create_token, consume_token, System, reading, after_step, inserted,
  called, moved, Reach, here, next, no_tokens, select,
}
use navigator_ai.Auth.Tokens.Single.{grants, used, one_grant}
use navigator_ai.Auth.Tokens.RoundTrip.{consume_token-create_token}

abbrev hash : String → String
hash raw = "#" +s raw

abbrev same_text : String → String
same_text t = t

abbrev no_rows : Store
no_rows = record { rows = []; rate_limits = empty }

abbrev with_token : Store
with_token = record no_rows {
  rows =
      record {
        token_hash = "#sess_1";
        product_id = "crm";
        intake = some "name";
        expires_at = 3600;
        used_at = none;
      }
      ∷ [];
}

consume_token-create_token_example :
    ((create_token hash same_text same_text "sess_1" "crm" (some "name") 3600 0 no_rows).0
      ≡ created "sess_1" 3600)
    × ((consume_token hash same_text same_text "sess_1" 3600
          (create_token hash same_text same_text "sess_1" "crm" (some "name") 3600 0 no_rows).1).0
        ≡ granted "crm" (some "name"))
unfolding check_rate_limit select
consume_token-create_token_example =
    consume_token-create_token hash same_text same_text "sess_1" "crm" (some "name") 3600 0 3600
      no_rows refl refl (λ t. refl)

abbrev the_row : Row
the_row = record {
  token_hash = "#sess_1";
  product_id = "crm";
  intake = none;
  expires_at = 3600;
  used_at = none;
}

-- Two calls that both read the row before either marks it.
abbrev two_calls : System
two_calls = record { rows = the_row ∷ []; consumers = reading "#sess_1" ∷ reading "#sess_1" ∷ [] }

abbrev first_moves : System → System
first_moves s = elim s.consumers [ [] ↦ s | c ∷ ds ↦ after_step [] c ds 10 s ]

two_calls-reached : Reach no_tokens two_calls
unfolding select
two_calls-reached =
    next (next (next here (inserted the_row refl refl refl)) (called "#sess_1" refl))
      (called "#sess_1" refl)

one_grant_example :
    let s = first_moves (first_moves two_calls) in
    (grants "#sess_1" s.consumers ≤ 1) × (grants "#sess_1" s.consumers ≡ used "#sess_1" s.rows)
unfolding after_step
one_grant_example =
    one_grant "#sess_1" {s = first_moves (first_moves two_calls)}
      (next (next two_calls-reached (moved [] _ _ 10 refl refl)) (moved [] _ _ 10 refl refl))

granted_once : grants "#sess_1" (first_moves (first_moves two_calls)).consumers ≡ 1
unfolding after_step
granted_once = refl
