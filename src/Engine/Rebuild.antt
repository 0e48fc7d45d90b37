-- ===== src/Engine/Rebuild.antt =====
-- How the state hash of redisengine/engine.go comes from PostgreSQL: at a cold start, by `loadSnapshot`
-- and the seed of the bid script, and after a checkpoint, by `loadSnapshotForRedisState` and
-- `writeRedisStateSnapshot`.
pub mod Ceiling
use Prim.Native.String.{String}
use live_auction.Common.{
  ℕ, ◌+◌, ◌-◌, ◌*◌, Bool, true, Option, none, some, or_default, if◌then◌else◌,
}
use live_auction.Engine.Data.{EngineStatus, reconciling, StateHash, Snapshot}
use live_auction.Engine.State.{is_reconciling}

-- The columns of `auctions` and `auction_rules` that both queries read; times in milliseconds, the
-- rule's windows in seconds.
pub record AuctionRow : Type 0 where
  pub status : EngineStatus
  pub current_price_cents : ℕ
  pub current_winner_id : Option ℕ
  pub start_price_cents : ℕ
  pub increment_cents : ℕ
  pub cap_price_cents : Option ℕ
  pub end_at_ms : ℕ
  pub extend_window_seconds : ℕ
  pub extend_by_seconds : ℕ
  pub max_extend_count : ℕ
  pub extend_count : ℕ
  pub accepted_bid_count : ℕ
  pub seq : ℕ
  pub engine_seq : ℕ
  pub engine_epoch : ℕ
  pub engine_paused : Bool
  pub engine_pause_reason : Option String
  pub fat_finger_threshold_cents : Option ℕ

-- What the two loads share: the scanned row, with the ceiling left at Go's zero.
unfoldable pub scan_row : AuctionRow → Snapshot
scan_row r = record {
  status = r.status;
  current_price_cents = r.current_price_cents;
  current_winner_id = r.current_winner_id;
  start_price_cents = r.start_price_cents;
  increment_cents = r.increment_cents;
  cap_price_cents = or_default r.cap_price_cents 0;
  end_at_ms = r.end_at_ms;
  absolute_end_ms = 0;
  extend_window_ms = r.extend_window_seconds * 1000;
  extend_by_ms = r.extend_by_seconds * 1000;
  max_extend_count = r.max_extend_count;
  extend_count = r.extend_count;
  accepted_bid_count = r.accepted_bid_count;
  seq = r.seq;
  engine_seq = r.engine_seq;
  engine_epoch = r.engine_epoch;
  paused = r.engine_paused;
  pause_reason = or_default r.engine_pause_reason "";
  requires_postgres = "";
  fat_finger_threshold_cents = r.fat_finger_threshold_cents;
}

pub data LoadError : Type 0 where
  load_not_found load_paused load_reconciling : LoadError

pub data Loaded : Type 0 where
  loaded : Snapshot → Loaded
  refused_load : LoadError → Loaded

-- `loadSnapshot`. The query selects '' for `requires_postgres`, so its last guard never fires.
unfoldable pub load_snapshot : Option AuctionRow → Loaded
unfolding scan_row
load_snapshot none = refused_load load_not_found
load_snapshot (some r) =
    if r.engine_paused
    then refused_load load_paused
    else if is_reconciling r.status
    then refused_load load_reconciling
    else loaded (scan_row r)

-- `loadSnapshotForRedisState`. A negative number of extensions left is set to 0, as ℕ does.
unfoldable pub load_snapshot_for_redis_state : AuctionRow → Snapshot
unfolding scan_row
load_snapshot_for_redis_state r =
    let s = scan_row r in
    let remaining = (s.max_extend_count - s.extend_count) * s.extend_by_ms in
    record s { absolute_end_ms = s.end_at_ms + remaining + s.extend_count * s.extend_by_ms }

-- The fields that `writeRedisStateSnapshot` sets.
unfoldable pub write_redis_state : Snapshot → StateHash
write_redis_state d = record {
  status = some d.status;
  current_price_cents = some d.current_price_cents;
  current_winner_id = some d.current_winner_id;
  start_price_cents = some d.start_price_cents;
  increment_cents = some d.increment_cents;
  cap_price_cents = some d.cap_price_cents;
  end_at_ms = some d.end_at_ms;
  extend_window_ms = some d.extend_window_ms;
  extend_by_ms = some d.extend_by_ms;
  max_extend_count = some d.max_extend_count;
  extend_count = some d.extend_count;
  accepted_bid_count = some d.accepted_bid_count;
  seq = some d.seq;
  engine_seq = some d.engine_seq;
  engine_epoch = some d.engine_epoch;
  paused = some d.paused;
  pause_reason = some d.pause_reason;
  requires_postgres = some d.requires_postgres;
  absolute_end_ms = some d.absolute_end_ms;
  fat_finger_threshold_cents = some (or_default d.fat_finger_threshold_cents 0);
}
