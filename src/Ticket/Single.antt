-- ===== src/Ticket/Single.antt =====
-- A ticket of backend/internal/realtime/ticket.go opens one connection.
use live_auction.Common.{
  ℕ, ◌≡◌, ◌≢◌, refl, ◌∙◌, Option, none, some, List, [], ◌∷◌, All, update_self, arith,
}
use live_auction.Ticket.{
  Ticket, Stored, ticket_json, invalid_ticket, got, no_ticket, issue, ws_ticket_consume,
  consume_ticket, TicketOp, do_issue, do_consume_ticket, do_expire, ticket_step, run_tickets,
}

-- The operation does not issue this token, which `Issue` draws at random.
abbrev pub NotIssued : ℕ → TicketOp → Type 0
NotIssued token (do_issue other _) = token ≢ other
NotIssued token _ = Unit

-- The operation leaves this token alone.
abbrev pub Elsewhere : ℕ → TicketOp → Type 0
Elsewhere token (do_issue other _) = token ≢ other
Elsewhere token (do_consume_ticket other) = token ≢ other
Elsewhere token (do_expire other) = token ≢ other

consume_gone : (token : ℕ) (keys : ℕ → Option Stored) → (consume_ticket token keys).1 token ≡ none
unfolding consume_ticket ws_ticket_consume
consume_gone token keys = ground arith

step_gone :
    (token : ℕ) (o : TicketOp) (keys : ℕ → Option Stored)
    → NotIssued token o
    → keys token ≡ none
    → ticket_step o keys token ≡ none
unfolding ticket_step issue consume_ticket ws_ticket_consume
step_gone token (do_issue other t) keys n e = ground (arith, n, e)
step_gone token (do_consume_ticket other) keys n e = ground (arith, e)
step_gone token (do_expire other) keys n e = ground (arith, e)

run_gone :
    (token : ℕ) (os : List TicketOp) (keys : ℕ → Option Stored)
    → All (NotIssued token) os
    → keys token ≡ none
    → run_tickets os keys token ≡ none
unfolding run_tickets
run_gone token [] keys n e = e
run_gone token (o ∷ os) keys n e =
    run_gone token os (ticket_step o keys) n.1 (step_gone token o keys n.0 e)

-- A token that has been consumed is invalid from then on, whatever is issued under other tokens,
-- consumed and expired after it: a ticket opens one connection at most.
pub consume_ticket-run_tickets :
    (token : ℕ) (os : List TicketOp) (keys : ℕ → Option Stored)
    → All (NotIssued token) os
    → (consume_ticket token (run_tickets os (consume_ticket token keys).1)).0
      ≡ no_ticket invalid_ticket
unfolding consume_ticket ws_ticket_consume
consume_ticket-run_tickets token os keys n =
    ground (arith, run_gone token os (consume_ticket token keys).1 n (consume_gone token keys))

step_other :
    (token : ℕ) (o : TicketOp) (keys : ℕ → Option Stored)
    → Elsewhere token o
    → ticket_step o keys token ≡ keys token
unfolding ticket_step issue consume_ticket ws_ticket_consume
step_other token (do_issue other t) keys n = ground (arith, n)
step_other token (do_consume_ticket other) keys n = ground (arith, n)
step_other token (do_expire other) keys n = ground (arith, n)

run_other :
    (token : ℕ) (os : List TicketOp) (keys : ℕ → Option Stored)
    → All (Elsewhere token) os
    → run_tickets os keys token ≡ keys token
unfolding run_tickets
run_other token [] keys n = refl
run_other token (o ∷ os) keys n =
    run_other token os (ticket_step o keys) n.1 ∙ step_other token o keys n.0

-- An issued ticket is what its token is exchanged for, whatever happens to other tokens in between and
-- as long as it does not run out.
pub issue-consume_ticket :
    (token : ℕ) (t : Ticket) (os : List TicketOp) (keys : ℕ → Option Stored)
    → All (Elsewhere token) os
    → (consume_ticket token (run_tickets os (issue token t keys))).0 ≡ got t
unfolding consume_ticket ws_ticket_consume issue
issue-consume_ticket token t os keys n = ground (
  arith,
  run_other token os (issue token t keys) n ∙ update_self keys token (some (ticket_json t)),
)
