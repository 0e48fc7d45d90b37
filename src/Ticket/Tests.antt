-- ===== src/Ticket/Tests.antt =====
-- The theorems on backend/internal/realtime/ticket.go at two tokens.
use live_auction.Common.{ℕ, ◌≡◌, Option, none, List, [], ◌∷◌, All, arith}
use live_auction.Ticket.{
  Ticket, Stored, role_user, invalid_ticket, got, no_ticket, issue, consume_ticket, TicketOp,
  do_issue, do_consume_ticket, run_tickets,
}
use live_auction.Ticket.Single.{
  NotIssued, Elsewhere, consume_ticket-run_tickets, issue-consume_ticket,
}

abbrev a_ticket : Ticket
a_ticket = record { user_id = 7; role = role_user; room_id = 1; auction_id = 1 }

abbrev no_keys : ℕ → Option Stored
no_keys _ = none

abbrev between : List TicketOp
between = do_issue 6 a_ticket ∷ do_consume_ticket 6 ∷ []

between-NotIssued : All (NotIssued 5) between
between-NotIssued = (λ e. omega (arith, e), (tt, tt))

between-Elsewhere : All (Elsewhere 5) between
between-Elsewhere = (λ e. omega (arith, e), (λ e. omega (arith, e), tt))

consume_ticket-run_tickets_example :
    (consume_ticket 5 (run_tickets between (consume_ticket 5 (issue 5 a_ticket no_keys)).1)).0
    ≡ no_ticket invalid_ticket
consume_ticket-run_tickets_example =
    consume_ticket-run_tickets 5 between (issue 5 a_ticket no_keys) between-NotIssued

issue-consume_ticket_example :
    (consume_ticket 5 (run_tickets between (issue 5 a_ticket no_keys))).0 ≡ got a_ticket
issue-consume_ticket_example = issue-consume_ticket 5 a_ticket between no_keys between-Elsewhere
