-- ===== src/Automation/Tickets.antt =====
-- navigator/automation/explore/tickets.py: the single-use tickets of the exploration socket. `now`
-- stands for the clock readings of one call, in milliseconds, and the random ticket is an
-- argument. The dictionary is an association list, of which only the lookup is observed.
pub mod SingleUse
mod Tests
use navigator_ai.Prelude.{
  ℕ, ◌+◌, String, Bool, true, false, not, Option, none, some, List, [], ◌∷◌, ◌++◌, ltb, keep_if,
  ◌==◌, string_eq, if◌then◌else◌,
}

abbrev pub ttl_ms : ℕ
ttl_ms = 60000

pub record Entry : Type 0 where
  pub ticket : String
  pub product_id : String
  pub expires : ℕ

abbrev pub Tickets : Type 0
Tickets = List Entry

unfoldable pub prune : ℕ → Tickets → Tickets
prune now tickets = keep_if (λ e. ltb now e.expires) tickets

unfoldable pub find : String → Tickets → Option Entry
find ticket [] = none
find ticket (e ∷ tickets) =
    let rest = find ticket tickets in if e.ticket == ticket then some e else rest

unfoldable pub remove : String → Tickets → Tickets
remove ticket tickets = keep_if (λ e. not (e.ticket == ticket)) tickets

unfoldable pub mint_ticket : String → String → ℕ → Tickets → Tickets
unfolding prune remove
mint_ticket ticket product_id now tickets =
    remove ticket (prune now tickets)
    ++ record { ticket = ticket; product_id = product_id; expires = now + ttl_ms } ∷ []

redeemed : ℕ → Option Entry → Option String
redeemed now none = none
redeemed now (some e) = if ltb now e.expires then some e.product_id else none

unfoldable pub redeem_ticket : String → ℕ → Tickets → Option String × Tickets
unfolding prune find remove redeemed
redeem_ticket ticket now tickets =
    if ticket == ""
    then (none, tickets)
    else (redeemed now (find ticket (prune now tickets)), remove ticket (prune now tickets))
