-- ===== src/Settle/Projection.antt =====
-- PostgreSQL as a projection of the Redis hash: what the settlement of redisengine/engine.go makes of a
-- decision of its scripts.
use live_auction.Common.{suc, ◌≤◌, ◌≡◌, refl, Bool, Option, some, if◌then◌else◌, arith}
use live_auction.Engine.Data.{active, sold, BidSource, RejectReason, Basis, StateHash, Call}
use live_auction.Engine.State.{Live, read_hash}
use live_auction.Engine.Store.{outcome, accepted_result, accepted_hash, rejected_result}
use live_auction.Settle.Data.{Auction}
use live_auction.Settle.Apply.{is_engine_sold, accepted_row, rejected_row}

-- The row of `auctions` shows what the hash holds.
pub record Mirrors (s : Live) (row : Auction) : Type 0 where
  pub status : row.status ≡ s.status
  pub price : row.current_price_cents ≡ s.current_price
  pub winner : row.current_winner_id ≡ s.current_winner
  pub end : row.end_at_ms ≡ s.end_at_ms
  pub extend_count : row.extend_count ≡ s.extend_count
  pub count : row.accepted_bid_count ≡ s.accepted_bid_count
  pub engine_seq : row.engine_seq ≡ s.engine_seq
  pub engine_epoch : row.engine_epoch ≡ s.engine_epoch

outcome_grows :
    (c : Call) (s : Live) (extends : Bool)
    → (s.end_at_ms ≤ (outcome c s extends).end_at_ms)
      × (s.extend_count ≤ (outcome c s extends).extend_count)
unfolding outcome
outcome_grows c s extends = ground arith

outcome_status :
    (c : Call) (s : Live) (extends : Bool)
    → (if is_engine_sold (outcome c s extends).code then sold else active)
      ≡ (outcome c s extends).status
unfolding outcome
outcome_status c s extends = ground arith

-- An accepted bid.
pub accepted_row-Mirrors :
    (c : Call) (h : StateHash) (extends : Bool) (source : Option BidSource) (basis : Option Basis)
    (row : Auction)
    → Mirrors (read_hash h) row
    → let o = outcome c (read_hash h) extends in
      Mirrors
        (read_hash (accepted_hash c h (read_hash h) o))
        (accepted_row (accepted_result c (read_hash h) o source basis) row)
unfolding read_hash accepted_hash accepted_row accepted_result
accepted_row-Mirrors c h extends source basis row v = record {
  status = outcome_status c _ extends;
  price = refl;
  winner = refl;
  end = ground (arith, v.end, (outcome_grows c (read_hash h) extends).0);
  extend_count = ground (arith, v.extend_count, (outcome_grows c (read_hash h) extends).1);
  count = omega (arith, v.count);
  engine_seq = refl;
  engine_epoch = refl;
}

-- A rejected one.
pub rejected_row-Mirrors :
    (c : Call) (h : StateHash) (reason : RejectReason) (row : Auction)
    → Mirrors (read_hash h) row
    → Mirrors
        (read_hash (record h { engine_seq = some (suc (read_hash h).engine_seq) }))
        (rejected_row (rejected_result c (read_hash h) reason) row)
unfolding read_hash rejected_row rejected_result
rejected_row-Mirrors c h reason row v = record {
  status = v.status;
  price = v.price;
  winner = v.winner;
  end = v.end;
  extend_count = v.extend_count;
  count = v.count;
  engine_seq = refl;
  engine_epoch = refl;
}
