-- ===== src/Relay/Data.antt =====
-- What the relay of the decision log in backend/internal/redisengine/engine.go reads and writes for one auction.
use live_auction.Common.{ℕ, Bool, Option, List}
use live_auction.Engine.Data.{AppendStatus, EngineResult, LogEntry, Keyspace}
use live_auction.Engine.Run.{Op}

-- A pass of relayAuctionLogBatch between two of its commands: with the cursor, with a batch and the position
-- of its last entry, the newest entry first, with the batch in Kafka, and with the records marked.
pub data Pass : Type 0 where
  at_rest : Pass
  has_cursor : ℕ → Pass
  has_read : List LogEntry → ℕ → Pass
  has_produced : List LogEntry → ℕ → Pass
  has_marked : ℕ → Pass

-- A call of waitKafkaAck: whether its channel is in the registry, what the channel holds, and the answer.
pub record Waiter : Type 0 where
  pub client_bid_id : ℕ
  pub registered : Bool
  pub ch : Option Bool
  pub answer : Option AppendStatus

-- The keys of the auction, the messages in its partition of Kafka, the newest first, the relay cursor as a
-- position in the log (0 where the key is missing), the circuit breaker, the passes and the waiting calls.
pub record Relay : Type 0 where
  pub auction_id : ℕ
  pub keys : Keyspace
  pub kafka : List EngineResult
  pub cursor : ℕ
  pub unhealthy : Bool
  pub pass : ℕ → Pass
  pub waiter : ℕ → Option Waiter

-- How AppendBatch ends: acknowledged, failed, or given up with its context. The writer splits the batch into
-- requests, from the oldest message on, and sends one after the other. A pair has the size of a request and how
-- often it was written without an acknowledgement; a request that fails does not stop the later ones. In a
-- success each of these requests is also acknowledged, and the rest of the batch is one more.
pub data Produced : Type 0 where
  produced produce_failed produce_cancelled : List (ℕ × ℕ) → Produced

-- A command of the scripts, of a pass, or of a waiting call; a pass that crashes is at rest again. `mark_acks` has
-- the time, and `none` where the pipeline succeeds or the number of entries that it marked before it failed.
-- `advance` is true where the SET succeeds.
pub data RelayOp : Type 0 where
  engine_op : Op → RelayOp
  get_cursor read_stream crash : ℕ → RelayOp
  produce : ℕ → Produced → RelayOp
  mark_acks : ℕ → ℕ → Option ℕ → RelayOp
  advance : ℕ → Bool → RelayOp
  wait_open : ℕ → ℕ → RelayOp
  wait_check wait_take wait_timeout : ℕ → RelayOp
