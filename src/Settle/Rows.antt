-- ===== src/Settle/Rows.antt =====
-- The statements of the settlement worker of redisengine/engine.go, one function for each, and the
-- response that it stores.
use live_auction.Common.{
  ℕ, suc, ◌+◌, ◌*◌, Bool, true, false, ◌&&◌, ◌||◌, not, Option, none, some, List, [], ◌∷◌, ltb, leb,
  ◌==◌, or_default, is_none, update, if◌then◌else◌,
}
use live_auction.Common.Int.{pos}
use live_auction.Deposit.{calculate_deposit}
use live_auction.Engine.Data.{
  manual, ResultCode, engine_accepted, engine_rejected, engine_sold, fat_finger_confirm_required,
  RejectReason, auction_not_active, auction_ended, bid_too_low, Basis, EngineResult,
}
use live_auction.Settle.Data.{
  BidResult, bid_engine_accepted, bid_engine_sold, bid_engine_rejected, bid_fat_finger, Durability,
  engine_durable, response_pending, BidResponse, Bid, IdemRow, EventType, event_bid_accepted,
  event_auction_sold, event_auction_extended, event_bid_rejected, Payload, Event, OutboxEvent,
  Order, JobStatus, job_pending, job_succeeded, job_dead, Checkpoint, Db, Env, PauseReason,
}

abbrev pub result_of : ResultCode → BidResult
result_of engine_accepted = bid_engine_accepted
result_of engine_sold = bid_engine_sold
result_of engine_rejected = bid_engine_rejected
result_of fat_finger_confirm_required = bid_fat_finger

abbrev durability_of : ResultCode → Durability → Durability
durability_of fat_finger_confirm_required _ = engine_durable
durability_of _ d = d

-- A time that is 0 is no time.
abbrev pub time_option : ℕ → Option ℕ
time_option t = if ltb 0 t then some t else none

-- A basis without a price is left out, and its number is that of the decision where it has none.
abbrev basis_of : Option Basis → ℕ → Option Basis
basis_of none seq = none
basis_of (some b) seq =
    if ltb 0 b.required_min_price_cents
      || ltb 0 b.current_price_cents
      || ltb 0 b.previous_price_cents
    then some (record b { engine_seq = if b.engine_seq == 0 then seq else b.engine_seq })
    else none

unfoldable pub response : EngineResult → Durability → BidResponse
response r durability = record {
  result = result_of r.code;
  bid_id = r.bid_id;
  auction_id = r.auction_id;
  seq = r.seq;
  engine_seq = r.engine_seq;
  engine_epoch = r.engine_epoch;
  durability_status = durability_of r.code durability;
  settlement_status = response_pending;
  decision_basis = basis_of r.decision_basis r.engine_seq;
  current_price_cents = r.current_price_cents;
  current_winner_id = r.current_winner_id;
  end_at = time_option r.end_at_ms;
  server_time_ms = r.server_time_ms;
  reject_reason = r.reject_reason;
  amount_cents = r.amount_cents;
  confirm_token = r.confirm_token;
  expires_in_ms = or_default r.expires_in_ms 0;
  confirm_expires_at =
      if ltb 0 (or_default r.expires_in_ms 0) && ltb 0 r.server_time_ms
      then some (r.server_time_ms + or_default r.expires_in_ms 0)
      else none;
}

abbrev pub set {ℓ} : {A : Type ℓ} → (ℕ → ℕ → A) → ℕ → ℕ → A → ℕ → ℕ → A
set f i j v = update f i (update (f i) j v)

abbrev same_bid : Bid → Bid → Bool
same_bid a b =
    a.request_hash == b.request_hash
    && a.amount_cents == b.amount_cents
    && (if a.accepted then b.accepted else not b.accepted)
    && a.engine_epoch == b.engine_epoch
    && a.engine_seq == b.engine_seq

abbrev pub bid_row : EngineResult → Option ℕ → Bool → Option RejectReason → BidResponse → Bid
bid_row r seq accepted reason json = record {
  id = r.bid_id;
  amount_cents = r.amount_cents;
  seq = seq;
  accepted = accepted;
  reject_reason = reason;
  request_hash = r.request_hash;
  response_json = json;
  trace_id = r.trace_id;
  source = or_default r.source manual;
  engine_epoch = r.engine_epoch;
  engine_seq = r.engine_seq;
}

-- `insertBid`; false where another bid has this user and client bid id. The unique index on the
-- engine's number is not in the way: the fence on `auctions.engine_seq` lets a number pass once.
unfoldable pub insert_bid :
    EngineResult → Option ℕ → Bool → Option RejectReason → BidResponse → Db → Bool × Db
insert_bid r seq accepted reason json db =
    let row = bid_row r seq accepted reason json in
    elim (db.bids r.user_id r.client_bid_id) [
      | none ↦ (true, record db { bids = set db.bids r.user_id r.client_bid_id (some row) })
      | some old ↦ (same_bid old row, db)
    ]

abbrev pub idem_row : EngineResult → BidResult → BidResponse → IdemRow
idem_row r code json = record {
  request_hash = r.request_hash;
  completed = true;
  result_code = code;
  response_json = json;
}

-- `completeIdem`; false where the record has another request hash.
unfoldable pub complete_idem : EngineResult → BidResult → BidResponse → Db → Bool × Db
complete_idem r code json db =
    let done = record db {
      idem = set db.idem r.user_id r.client_bid_id (some (idem_row r code json));
    } in
    elim (db.idem r.user_id r.client_bid_id) [
      | none ↦ (true, done)
      | some old ↦ if old.request_hash == r.request_hash then (true, done) else (false, db)
    ]

abbrev type_code : EventType → ℕ
type_code event_bid_accepted = 0
type_code event_auction_sold = 1
type_code event_auction_extended = 2
type_code event_bid_rejected = 3

abbrev pub has_outbox : ℕ → EventType → List OutboxEvent → Bool
has_outbox seq t [] = false
has_outbox seq t (o ∷ os) =
    (o.seq == seq && type_code o.event_type == type_code t) || has_outbox seq t os

abbrev pub event_row : EngineResult → EventType → Payload → Event
event_row r t payload = record {
  event_type = t;
  payload = payload;
  trace_id = r.trace_id;
  engine_epoch = r.engine_epoch;
  engine_seq = r.engine_seq;
}

-- `appendEvent`. A unique violation on the outbox aborts the transaction, so that the SELECT after it
-- fails too: `none`.
unfoldable pub append_event : EngineResult → ℕ → EventType → Payload → Db → Option Db
append_event r seq t payload db =
    let versioned = record payload { state_version = seq } in
    if has_outbox seq t db.outbox
    then none
    else some (record db {
      events =
          if is_none (db.events seq)
          then update db.events seq (some (event_row r t versioned))
          else db.events;
      outbox = record { seq = seq; event_type = t; payload = versioned } ∷ db.outbox;
    })

-- The job that expires an order, unless the order has one.
abbrev add_expire_job : ℕ → ℕ → Db → Db
add_expire_job order at db =
    if is_none (db.expire_jobs order)
    then record db {
      expire_jobs =
          update db.expire_jobs order (some (record { run_at_ms = at; status = job_pending }));
    }
    else db

-- `createOrder`: the id of the order, which is the old one where the auction has one.
unfoldable pub create_order : Env → ℕ → ℕ → Db → ℕ × Db
create_order env winner amount db =
    let rule = db.deposit_rule in
    let expire_at = env.now_ms + 15 * 60 * 1000 in
    let new : Order = record {
      id = env.new_order_id;
      winner_id = winner;
      amount_cents = amount;
      deposit_cents =
          calculate_deposit (pos amount) (or_default rule.bps (pos 1000))
            (or_default rule.floor_cents (pos 10000)) (or_default rule.cap_cents (pos 100000000));
      expire_at_ms = expire_at;
    } in
    elim db.order [
      | none ↦ (
        env.new_order_id,
        add_expire_job env.new_order_id expire_at (record db { order = some new }),
      )
      | some old ↦ (old.id, add_expire_job old.id expire_at db)
    ]

abbrev rescheduled : JobStatus → JobStatus
rescheduled job_succeeded = job_succeeded
rescheduled job_dead = job_dead
rescheduled _ = job_pending

-- The END_AUCTION job is put at the new end.
unfoldable pub push_end_job : ℕ → Db → Db
push_end_job at db = elim db.end_job [
  | none ↦ record db { end_job = some (record { run_at_ms = at; status = job_pending }) }
  | some job ↦ record db {
    end_job = some (record { run_at_ms = at; status = rescheduled job.status });
  }
]

-- `shouldBroadcastReject`.
abbrev pub should_broadcast_reject : Option RejectReason → Bool
should_broadcast_reject none = true
should_broadcast_reject (some bid_too_low) = false
should_broadcast_reject (some auction_ended) = false
should_broadcast_reject (some auction_not_active) = false
should_broadcast_reject (some _) = true

-- `pauseTx`.
unfoldable pub pause_tx : PauseReason → Db → Db
pause_tx reason db = record db {
  auction = record (db.auction) { engine_paused = true; engine_pause_reason = some reason };
  anomalies = reason ∷ db.anomalies;
}

-- `upsertEngineCheckpoint`: never back to an earlier epoch or number.
unfoldable pub upsert_engine_checkpoint : Option ℕ → Db → Db
upsert_engine_checkpoint none db = db
upsert_engine_checkpoint (some offset) db =
    let new : Checkpoint = record {
      engine_epoch = db.auction.engine_epoch;
      engine_seq = db.auction.engine_seq;
      next_decision_offset = suc offset;
    } in
    elim db.checkpoint [
      | none ↦ record db { checkpoint = some new }
      | some old ↦
          if ltb old.engine_epoch new.engine_epoch
            || (old.engine_epoch == new.engine_epoch && leb old.engine_seq new.engine_seq)
          then record db { checkpoint = some new }
          else db
    ]
