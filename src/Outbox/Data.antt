-- ===== src/Outbox/Data.antt =====
-- The tables and Redis keys of backend/internal/outbox/relay.go: outbox_delivery, the leases of the
-- shards, the anomalies that a dead letter leaves, and the history of an auction's events.
use live_auction.Common.{ℕ, Bool, Option, List}

pub data DeliveryStatus : Type 0 where
  pending publishing published failed dead : DeliveryStatus

pub data ErrorClass : Type 0 where
  redis_unavailable payload_invalid publish_timeout error_unknown : ErrorClass

-- A row of outbox_delivery for an event of an auction, with the columns that its trigger copies from
-- outbox_events.
pub record Delivery : Type 0 where
  pub outbox_id : ℕ
  pub auction_id : ℕ
  pub auction_seq : ℕ
  pub shard_id : ℕ
  pub event_created_at : ℕ
  pub status : DeliveryStatus
  pub attempts : ℕ
  pub next_attempt_at : ℕ
  pub locked_by : Option ℕ
  pub locked_until : Option ℕ
  pub published_at : Option ℕ
  pub last_error_class : Option ErrorClass
  pub last_error_retriable : Option Bool

-- `owner_id`: a worker, or "paused:" with the worker that paused the shard.
pub data Owner : Type 0 where
  worker paused_by : ℕ → Owner

pub record Lease : Type 0 where
  pub shard_id : ℕ
  pub owner_id : Owner
  pub lease_until : ℕ

-- An entry of the history "auction:<id>:events", by auction and number.
pub record Sent : Type 0 where
  pub auction_id : ℕ
  pub seq : ℕ

-- The event that a worker has claimed and not yet marked, before and after it was pushed.
pub data Flight : Type 0 where
  idle : Flight
  held sent_out : Delivery → Flight

-- `seq` is auctions.seq, `letters` the OUTBOX_DEAD_LETTER rows by outbox id. `sent` holds what was ever
-- pushed to a history, the newest first, also what LTRIM has cut off since. `flights` is
-- by worker.
pub record Outbox : Type 0 where
  pub deliveries : List Delivery
  pub leases : List Lease
  pub letters : List ℕ
  pub seq : ℕ → ℕ
  pub next_id : ℕ
  pub sent : List Sent
  pub flights : ℕ → Flight
