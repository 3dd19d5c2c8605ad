-- ===== src/Automation/Tickets/Tests.antt =====
-- A ticket, redeemed in time and tried again.
use navigator_ai.Prelude.{◌≡◌, refl, none, some, []}
use navigator_ai.Automation.Tickets.{mint_ticket, redeem_ticket}
use navigator_ai.Automation.Tickets.SingleUse.{redeem_ticket-mint_ticket}

redeem_ticket-mint_ticket_example :
    ((redeem_ticket "xpl_1" 30000 (mint_ticket "xpl_1" "crm" 1000 [])).0 ≡ some "crm")
    × ((redeem_ticket "xpl_1" 40000
          (redeem_ticket "xpl_1" 30000 (mint_ticket "xpl_1" "crm" 1000 [])).1).0
        ≡ none)
redeem_ticket-mint_ticket_example = redeem_ticket-mint_ticket "xpl_1" "crm" 1000 30000 40000 [] refl
