-- ===== src/Auth/RateLimit/Tests.antt =====
-- Two requests for one product and one for another.
use navigator_ai.Prelude.{◌≤◌, ◌≡◌, refl, ltb, List, [], ◌∷◌, arith}
use navigator_ai.Auth.RateLimit.{check_rate_limit}
use navigator_ai.Auth.RateLimit.Window.{
  Request, empty, serve, in_last_minute, check_rate_limit-in_last_minute,
}

abbrev three_requests : List Request
three_requests =
    record { product_id = "crm"; now = 1000 }
    ∷ record { product_id = "shop"; now = 2000 }
    ∷ record { product_id = "crm"; now = 50000 }
    ∷ []

check_rate_limit-in_last_minute_example :
    let (limits, passed) = serve "crm" empty [] three_requests in
    (in_last_minute 61000 passed ≤ 100)
    × ((check_rate_limit "crm" 61000 limits).0 ≡ ltb (in_last_minute 61000 passed) 100)
check_rate_limit-in_last_minute_example =
    check_rate_limit-in_last_minute "crm" three_requests 61000
      (omega arith, (omega arith, (omega arith, tt))) (omega arith)

-- The first request is 60 seconds old, and the second one for the product is not.
first_is_forgotten : in_last_minute 61000 (serve "crm" empty [] three_requests).1 ≡ 1
unfolding serve check_rate_limit
first_is_forgotten = refl
