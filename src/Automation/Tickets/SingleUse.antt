-- ===== src/Automation/Tickets/SingleUse.antt =====
-- What a ticket of navigator/automation/explore/tickets.py is good for.
use navigator_ai.Prelude.{
  ℕ, ◌+◌, ◌≡◌, refl, String, false, none, some, [], ◌∷◌, ◌++◌, ltb, ◌==◌, string_eq, eq_iff,
  if◌then◌else◌, arith,
}
use navigator_ai.Automation.Tickets.{
  Entry, Tickets, ttl_ms, prune, find, remove, mint_ticket, redeem_ticket,
}

find-remove : (ticket : String) (tickets : Tickets) → find ticket (remove ticket tickets) ≡ none
unfolding find remove
find-remove ticket [] = refl
find-remove ticket (e ∷ tickets) = ground (arith, find-remove ticket tickets)

find-prune_none :
    (ticket : String) (now : ℕ) (tickets : Tickets)
    → find ticket tickets ≡ none
    → find ticket (prune now tickets) ≡ none
unfolding find prune
find-prune_none ticket now [] h = refl
find-prune_none ticket now (e ∷ tickets) h = ground (arith, find-prune_none ticket now tickets)

-- The last entry of a ticket that stands nowhere before.
find-prune-snoc :
    (ticket : String) (now : ℕ) (tickets : Tickets) (e : Entry)
    → find ticket tickets ≡ none
    → e.ticket ≡ ticket
    → find ticket (prune now (tickets ++ e ∷ [])) ≡ (if ltb now e.expires then some e else none)
unfolding find prune
find-prune-snoc ticket now [] e h k = ground (arith, eq_iff e.ticket ticket)
find-prune-snoc ticket now (d ∷ tickets) e h k =
    ground (arith, find-prune-snoc ticket now tickets e)

find-redeem_ticket :
    (ticket : String) (now : ℕ) (tickets : Tickets)
    → (ticket == "") ≡ false
    → find ticket (redeem_ticket ticket now tickets).1 ≡ none
unfolding redeem_ticket
find-redeem_ticket ticket now tickets n = rw n (find-remove ticket (prune now tickets))

redeem-absent :
    (ticket : String) (now : ℕ) (tickets : Tickets)
    → find ticket tickets ≡ none
    → (redeem_ticket ticket now tickets).0 ≡ none
unfolding redeem_ticket
redeem-absent ticket now tickets h = ground (arith, find-prune_none ticket now tickets h)

-- A ticket that is not the empty text gives the product it was minted for, whatever tickets there
-- were, if it is redeemed within a minute, and nothing after that; a second attempt gives
-- nothing, at whatever time.
pub redeem_ticket-mint_ticket :
    (ticket product_id : String) (now later again : ℕ) (tickets : Tickets)
    → (ticket == "") ≡ false
    → let minted = mint_ticket ticket product_id now tickets in
      ((redeem_ticket ticket later minted).0
        ≡ (if ltb later (now + 60000) then some product_id else none))
      × ((redeem_ticket ticket again (redeem_ticket ticket later minted).1).0 ≡ none)
unfolding mint_ticket redeem_ticket
redeem_ticket-mint_ticket ticket product_id now later again tickets n =
    let minted = mint_ticket ticket product_id now tickets in
    let e : Entry = record { ticket = ticket; product_id = product_id; expires = now + ttl_ms } in
    let found =
      find-prune-snoc ticket later (remove ticket (prune now tickets)) e
        (find-remove ticket (prune now tickets)) refl in
    (
      ground (arith, n, found),
      redeem-absent ticket again (redeem_ticket ticket later minted).1
          (find-redeem_ticket ticket later minted n),
    )
