-- ===== src/Engine/Store.antt =====
-- What both scripts of redisengine/engine.go write: the idempotency record, the pending hash, the
-- log stream, and the state hash of a rejected or an accepted bid.
use live_auction.Common.{
  ℕ, suc, ◌+◌, ◌-◌, Bool, false, ◌&&◌, Option, none, some, ◌∷◌, ltb, leb, ◌==◌, update,
  if◌then◌else◌,
}
use live_auction.Engine.Data.{
  EngineStatus, active, sold, BidSource, ResultCode, engine_accepted, engine_rejected, engine_sold,
  RejectReason, settlement_pending, append_unknown, StateHash, Basis, EngineResult, IdemHash,
  Keyspace, Call,
}
use live_auction.Engine.State.{Live}

-- The price that a bid is measured against.
unfoldable pub base_price : Live → ℕ
base_price s = if leb s.accepted_bid_count 0 then s.start_price else s.current_price

unfoldable pub idem_record : Call → EngineResult → IdemHash
idem_record c r = record {
  request_hash = some c.request_hash;
  result_json = some r;
  engine_seq = some r.engine_seq;
  engine_epoch = some r.engine_epoch;
  kafka_append_status = some append_unknown;
  expires_at_ms = some (c.now_ms + c.idem_ttl_ms);
  ttl_ms = some c.idem_ttl_ms;
}

unfoldable pub store_result : Call → EngineResult → Keyspace → Keyspace
unfolding idem_record
store_result c r ks = record ks { idem = update ks.idem c.client_bid_id (idem_record c r) }

unfoldable pub store_decision : Call → EngineResult → Keyspace → Keyspace
unfolding store_result
store_decision c r ks =
    let stored = store_result c r ks in
    record stored {
      pending = update stored.pending r.engine_seq (some r);
      pending_ttl_ms = c.state_ttl_ms;
      log =
          record {
            engine_seq = r.engine_seq;
            engine_epoch = r.engine_epoch;
            result = r.code;
            auction_id = c.auction_id;
            payload = r;
          }
          ∷ stored.log;
      log_ttl_ms = c.state_ttl_ms;
    }

unfoldable pub rejected_result : Call → Live → RejectReason → EngineResult
unfolding base_price
rejected_result c s reason = record {
  code = engine_rejected;
  bid_id = c.bid_id;
  auction_id = c.auction_id;
  user_id = c.user_id;
  client_bid_id = c.client_bid_id;
  amount_cents = c.amount;
  seq = s.public_seq;
  engine_seq = suc s.engine_seq;
  engine_epoch = s.engine_epoch;
  settlement_status = settlement_pending;
  reject_reason = some reason;
  current_price_cents = s.current_price;
  current_winner_id = s.current_winner;
  end_at_ms = s.end_at_ms;
  extend_count = none;
  server_time_ms = c.now_ms;
  trace_id = c.trace_id;
  request_hash = c.request_hash;
  source = none;
  confirm_token = none;
  expires_in_ms = none;
  decision_basis = some (record {
    previous_price_cents = base_price s;
    required_min_price_cents = base_price s + s.increment;
    current_price_cents = s.current_price;
    reason = some reason;
    engine_seq = suc s.engine_seq;
  });
}

-- `reject`: the decision takes the next number, and nothing else of the state changes.
unfoldable pub reject_bid : Call → StateHash → Live → RejectReason → Keyspace → Keyspace
unfolding rejected_result store_decision
reject_bid c h s reason ks = store_decision c (rejected_result c s reason) (record ks {
  state = some (record h { engine_seq = some (suc s.engine_seq) });
  state_ttl_ms = c.state_ttl_ms;
})

-- The hard ceiling on a new end.
unfoldable pub clamp_end : Live → ℕ → ℕ
clamp_end s candidate =
    if ltb 0 s.absolute_end_ms && ltb s.absolute_end_ms candidate
    then s.absolute_end_ms
    else candidate

abbrev extend_to : Live → ℕ → ℕ × ℕ
extend_to s end =
    if ltb s.end_at_ms end then (end, s.extend_count + 1) else (s.end_at_ms, s.extend_count)

-- The new end and extension count of a bid that does not sell. The caller has seen that
-- `now ≤ end_at_ms`, so the truncated subtraction is exact.
unfoldable pub extension : Live → ℕ → ℕ × ℕ
unfolding clamp_end
extension s now =
    let candidate = s.end_at_ms + s.extend_by_ms in
    if ltb s.extend_count s.max_extend_count
      && leb (s.end_at_ms - now) s.extend_window_ms
      && ltb s.end_at_ms candidate
    then extend_to s (clamp_end s candidate)
    else (s.end_at_ms, s.extend_count)

unfoldable pub is_cap_bid : Live → ℕ → Bool
is_cap_bid s amount = ltb 0 s.cap && amount == s.cap

-- What an accepted bid leaves behind: its code, the new status, end and extension count.
pub record Outcome : Type 0 where
  pub code : ResultCode
  pub status : EngineStatus
  pub end_at_ms : ℕ
  pub extend_count : ℕ

-- `extends` is false for the automatic answer of a proxy bid.
unfoldable pub outcome : Call → Live → Bool → Outcome
unfolding extension is_cap_bid
outcome c s extends =
    if is_cap_bid s c.amount
    then record {
      code = engine_sold;
      status = sold;
      end_at_ms = s.end_at_ms;
      extend_count = s.extend_count;
    }
    else let (end, count) =
        if extends then extension s c.now_ms else (s.end_at_ms, s.extend_count) in
      record { code = engine_accepted; status = active; end_at_ms = end; extend_count = count }

unfoldable pub accepted_result :
    Call → Live → Outcome → Option BidSource → Option Basis → EngineResult
accepted_result c s o source basis = record {
  code = o.code;
  bid_id = c.bid_id;
  auction_id = c.auction_id;
  user_id = c.user_id;
  client_bid_id = c.client_bid_id;
  amount_cents = c.amount;
  seq = s.public_seq;
  engine_seq = suc s.engine_seq;
  engine_epoch = s.engine_epoch;
  settlement_status = settlement_pending;
  reject_reason = none;
  current_price_cents = c.amount;
  current_winner_id = some c.user_id;
  end_at_ms = o.end_at_ms;
  extend_count = some o.extend_count;
  server_time_ms = c.now_ms;
  trace_id = c.trace_id;
  request_hash = c.request_hash;
  source = source;
  confirm_token = none;
  expires_in_ms = none;
  decision_basis = basis;
}

-- The ten `HSET`s on the state hash that an accepted bid makes.
unfoldable pub accepted_hash : Call → StateHash → Live → Outcome → StateHash
accepted_hash c h s o = record h {
  status = some o.status;
  current_price_cents = some c.amount;
  current_winner_id = some (some c.user_id);
  end_at_ms = some o.end_at_ms;
  extend_count = some o.extend_count;
  accepted_bid_count = some (s.accepted_bid_count + 1);
  engine_seq = some (suc s.engine_seq);
  engine_epoch = some s.engine_epoch;
  paused = some false;
  pause_reason = some "";
}
