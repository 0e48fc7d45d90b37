-- ===== src/Ticket.antt =====
-- The tickets that open a WebSocket, backend/internal/realtime/ticket.go, in the keys of Redis.
pub mod Single
mod Tests
use live_auction.Common.{ℕ, Option, none, some, List, [], ◌∷◌, update}

pub data Role : Type 0 where
  role_user role_host role_other : Role

pub record Ticket : Type 0 where
  pub user_id : ℕ
  pub role : Role
  pub room_id : ℕ
  pub auction_id : ℕ

-- What is stored under a ticket key: the JSON of a ticket, or a text that is none.
pub data Stored : Type 0 where
  ticket_json : Ticket → Stored
  other_json : Stored

pub data ConsumeError : Type 0 where
  invalid_ticket unmarshal_error : ConsumeError

pub data Consumed : Type 0 where
  got : Ticket → Consumed
  no_ticket : ConsumeError → Consumed

-- `Issue` under a random token.
unfoldable pub issue : ℕ → Ticket → (ℕ → Option Stored) → (ℕ → Option Stored)
issue token ticket keys = update keys token (some (ticket_json ticket))

-- The script: GET, and DEL where there is a value.
unfoldable pub ws_ticket_consume : ℕ → (ℕ → Option Stored) → Option Stored × (ℕ → Option Stored)
ws_ticket_consume token keys = elim (keys token) [
  | none ↦ (none, keys)
  | some v ↦ (some v, update keys token none)
]

abbrev read_ticket : Option Stored → Consumed
read_ticket none = no_ticket invalid_ticket
read_ticket (some (ticket_json t)) = got t
read_ticket (some other_json) = no_ticket unmarshal_error

-- `Consume`.
unfoldable pub consume_ticket : ℕ → (ℕ → Option Stored) → Consumed × (ℕ → Option Stored)
unfolding ws_ticket_consume
consume_ticket token keys =
    let (value, keys') = ws_ticket_consume token keys in (read_ticket value, keys')

-- What happens to the keys: tickets are issued and consumed, and run out after their TTL.
pub data TicketOp : Type 0 where
  do_issue : ℕ → Ticket → TicketOp
  do_consume_ticket do_expire : ℕ → TicketOp

unfoldable pub ticket_step : TicketOp → (ℕ → Option Stored) → (ℕ → Option Stored)
unfolding issue consume_ticket
ticket_step (do_issue token t) keys = issue token t keys
ticket_step (do_consume_ticket token) keys = (consume_ticket token keys).1
ticket_step (do_expire token) keys = update keys token none

unfoldable pub run_tickets : List TicketOp → (ℕ → Option Stored) → (ℕ → Option Stored)
unfolding ticket_step
run_tickets [] keys = keys
run_tickets (o ∷ os) keys = run_tickets os (ticket_step o keys)
