-- ===== src/Settle/Apply.antt =====
-- `settleAccepted` and `settleRejected` of redisengine/engine.go, in the transaction of one message.
use live_auction.Common.{
  ℕ, suc, ◌+◌, Bool, true, false, ◌&&◌, Option, none, some, ltb, ◌==◌, or_default, if◌then◌else◌,
}
use live_auction.Engine.Data.{
  active, sold, BidSource, auto_max_bid, ResultCode, engine_sold, EngineResult,
}
use live_auction.Settle.Data.{
  BidResult, bid_accepted, bid_accepted_sold, bid_rejected, kafka_acked, response_settled,
  BidResponse, Auction, EventType, event_bid_accepted, event_auction_sold, event_auction_extended,
  event_bid_rejected, Payload, Db, Env, SettleError, fenced_out, sql_error,
}
use live_auction.Settle.Rows.{
  time_option, response, insert_bid, complete_idem, append_event, create_order, push_end_job,
  should_broadcast_reject,
}

-- The end of a settlement: the transaction's rows, the rows it had changed by the time another bid or
-- record was in the way, an error that rolls it back, or another bid in the way of rows that the
-- deferred trigger of backend/migrations/202606090003_settlement_projection_invariants.sql then does not
-- let commit.
pub data Applied : Type 0 where
  applied : Db → Applied
  conflicted : Db → Applied
  broken : SettleError → Applied
  uncommitted : Applied

abbrev pub is_engine_sold : ResultCode → Bool
is_engine_sold engine_sold = true
is_engine_sold _ = false

abbrev pub is_auto : Option BidSource → Bool
is_auto (some auto_max_bid) = true
is_auto _ = false

-- The row of `auctions` once a bid is settled.
unfoldable pub accepted_row : EngineResult → Auction → Auction
accepted_row r row = record row {
  status = if is_engine_sold r.code then sold else active;
  current_price_cents = r.amount_cents;
  current_winner_id = some r.user_id;
  end_at_ms = or_default (time_option r.end_at_ms) row.end_at_ms;
  extend_count =
      if ltb row.extend_count (or_default r.extend_count 0)
      then or_default r.extend_count 0
      else row.extend_count;
  accepted_bid_count = row.accepted_bid_count + 1;
  seq = row.seq + 1;
  engine_seq = r.engine_seq;
  engine_epoch = r.engine_epoch;
  version = row.version + 1;
}

-- The fence of both statements: `engine_epoch = $7 AND engine_seq = $6 - 1`.
abbrev pub passes_fence : EngineResult → Auction → Bool
passes_fence r row = row.engine_epoch == r.engine_epoch && suc row.engine_seq == r.engine_seq

unfoldable pub settled_response : EngineResult → BidResult → ℕ → BidResponse
unfolding response
settled_response r result seq = record (response r kafka_acked) {
  result = result;
  settlement_status = response_settled;
  seq = seq;
}

abbrev pub accepted_result_code : EngineResult → BidResult
accepted_result_code r = if is_engine_sold r.code then bid_accepted_sold else bid_accepted

-- Whether the event of an accepted bid is an extension.
abbrev pub extends_end : EngineResult → ℕ → Bool
extends_end r previous = if is_engine_sold r.code then false else ltb previous r.end_at_ms

abbrev pub event_of : EngineResult → ℕ → EventType
event_of r previous =
    if is_engine_sold r.code
    then event_auction_sold
    else if ltb previous r.end_at_ms
    then event_auction_extended
    else event_bid_accepted

abbrev pub accepted_payload : EngineResult → ℕ → Payload
accepted_payload r previous = record {
  bid_id = r.bid_id;
  user_id = r.user_id;
  amount_cents = r.amount_cents;
  result = some (accepted_result_code r);
  reason = none;
  current_price_cents = some r.amount_cents;
  decision_basis = r.decision_basis;
  extension =
      if extends_end r previous
      then some (previous, r.end_at_ms, or_default r.extend_count 0)
      else none;
  order_id = none;
  bid_source = if is_auto r.source then some auto_max_bid else none;
  state_version = 0;
}

-- The order of a sold auction, or the END_AUCTION job of one that goes on.
unfoldable pub order_or_job : Env → EngineResult → Payload → Db → Payload × Db
unfolding create_order push_end_job
order_or_job env r payload db =
    if is_engine_sold r.code
    then (let (id, db') = create_order env r.user_id r.amount_cents db in
        (record payload { order_id = some id }, db'))
    else (payload, if ltb 0 r.end_at_ms then push_end_job r.end_at_ms db else db)

-- The event and the idempotency record, which come last.
unfoldable pub publish :
    EngineResult → ℕ → EventType → Payload → BidResult → BidResponse → Db → Applied
unfolding append_event complete_idem
publish r seq t payload code json db = elim (append_event r seq t payload db) [
  | none ↦ broken sql_error
  | some published ↦
      let (done, db') = complete_idem r code json published in
      if done then applied db' else conflicted db'
]

-- Where another bid is in the way, the row counts an accepted bid that the table of bids does not have.
unfoldable pub settle_accepted : Env → EngineResult → Db → Applied
unfolding accepted_row settled_response insert_bid order_or_job publish
settle_accepted env r db =
    if passes_fence r db.auction
    then (let row = accepted_row r db.auction in
        let json = settled_response r (accepted_result_code r) row.seq in
        let (fresh, db1) =
          insert_bid r (some row.seq) true none json (record db { auction = row }) in
        let (payload, db2) = order_or_job env r (accepted_payload r db.auction.end_at_ms) db1 in
        if fresh
        then publish r row.seq (event_of r db.auction.end_at_ms) payload (accepted_result_code r)
            json db2
        else uncommitted)
    else broken fenced_out

unfoldable pub rejected_row : EngineResult → Auction → Auction
rejected_row r row = record row {
  engine_seq = r.engine_seq;
  engine_epoch = r.engine_epoch;
  seq = if should_broadcast_reject r.reject_reason then row.seq + 1 else row.seq;
  version = row.version + 1;
}

abbrev pub rejected_payload : EngineResult → Payload
rejected_payload r = record {
  bid_id = r.bid_id;
  user_id = r.user_id;
  amount_cents = r.amount_cents;
  result = none;
  reason = r.reject_reason;
  current_price_cents = none;
  decision_basis = r.decision_basis;
  extension = none;
  order_id = none;
  bid_source = none;
  state_version = 0;
}

-- The tables after the row of a rejection, which is `broadcast` or not.
unfoldable pub write_rejected : Bool → EngineResult → Auction → Db → Applied
unfolding settled_response insert_bid publish complete_idem
write_rejected broadcast r row db =
    let json = settled_response r bid_rejected row.seq in
    let (fresh, db1) =
      insert_bid r (if broadcast then some row.seq else none) false r.reject_reason json
        (record db { auction = row }) in
    if fresh
    then (if broadcast
        then publish r row.seq event_bid_rejected (rejected_payload r) bid_rejected json db1
        else (let (done, db2) = complete_idem r bid_rejected json db1 in
            if done then applied db2 else conflicted db2))
    else conflicted db1

unfoldable pub settle_rejected : EngineResult → Db → Applied
unfolding rejected_row write_rejected
settle_rejected r db =
    if passes_fence r db.auction
    then write_rejected (should_broadcast_reject r.reject_reason) r (rejected_row r db.auction) db
    else broken fenced_out
