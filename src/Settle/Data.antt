-- ===== src/Settle/Data.antt =====
-- The rows of one auction that the settlement worker of redisengine/engine.go reads and writes.
use live_auction.Common.{ℕ, Bool, Option, List}
use live_auction.Common.Int.{ℤ}
use live_auction.Engine.Data.{EngineStatus, BidSource, RejectReason, Token, Basis, EngineResult}

-- `result` of a response.
pub data BidResult : Type 0 where
  bid_accepted bid_accepted_sold bid_rejected bid_engine_accepted : BidResult
  bid_engine_sold bid_engine_rejected bid_fat_finger : BidResult

pub data Durability : Type 0 where
  engine_durable kafka_acked : Durability

pub data Settlement : Type 0 where
  response_pending response_settled : Settlement

-- `auction.BidResponse`; its decision status is always DECIDED here.
pub record BidResponse : Type 0 where
  pub result : BidResult
  pub bid_id : ℕ
  pub auction_id : ℕ
  pub seq : ℕ
  pub engine_seq : ℕ
  pub engine_epoch : ℕ
  pub durability_status : Durability
  pub settlement_status : Settlement
  pub decision_basis : Option Basis
  pub current_price_cents : ℕ
  pub current_winner_id : Option ℕ
  pub end_at : Option ℕ
  pub server_time_ms : ℕ
  pub reject_reason : Option RejectReason
  pub amount_cents : ℕ
  pub confirm_token : Option Token
  pub expires_in_ms : ℕ
  pub confirm_expires_at : Option ℕ

-- The reasons of `pauseTx`.
pub data PauseReason : Type 0 where
  redis_engine_stale_epoch redis_engine_ledger_gap settlement_identity_conflict : PauseReason

pub record Auction : Type 0 where
  pub status : EngineStatus
  pub current_price_cents : ℕ
  pub current_winner_id : Option ℕ
  pub end_at_ms : ℕ
  pub extend_count : ℕ
  pub accepted_bid_count : ℕ
  pub seq : ℕ
  pub engine_seq : ℕ
  pub engine_epoch : ℕ
  pub version : ℕ
  pub engine_paused : Bool
  pub engine_pause_reason : Option PauseReason

pub record Bid : Type 0 where
  pub id : ℕ
  pub amount_cents : ℕ
  pub seq : Option ℕ
  pub accepted : Bool
  pub reject_reason : Option RejectReason
  pub request_hash : ℕ
  pub response_json : BidResponse
  pub trace_id : ℕ
  pub source : BidSource
  pub engine_epoch : ℕ
  pub engine_seq : ℕ

pub record IdemRow : Type 0 where
  pub request_hash : ℕ
  pub completed : Bool
  pub result_code : BidResult
  pub response_json : BidResponse

pub data EventType : Type 0 where
  event_bid_accepted event_auction_sold event_auction_extended event_bid_rejected : EventType

-- The payload of an event; `extension` has the old end, the new one, and the extension count.
pub record Payload : Type 0 where
  pub bid_id : ℕ
  pub user_id : ℕ
  pub amount_cents : ℕ
  pub result : Option BidResult
  pub reason : Option RejectReason
  pub current_price_cents : Option ℕ
  pub decision_basis : Option Basis
  pub extension : Option (ℕ × ℕ × ℕ)
  pub order_id : Option ℕ
  pub bid_source : Option BidSource
  pub state_version : ℕ

pub record Event : Type 0 where
  pub event_type : EventType
  pub payload : Payload
  pub trace_id : ℕ
  pub engine_epoch : ℕ
  pub engine_seq : ℕ

-- An outbox event with its PENDING delivery.
pub record OutboxEvent : Type 0 where
  pub seq : ℕ
  pub event_type : EventType
  pub payload : Payload

pub record Order : Type 0 where
  pub id : ℕ
  pub winner_id : ℕ
  pub amount_cents : ℕ
  pub deposit_cents : ℤ
  pub expire_at_ms : ℕ

pub data JobStatus : Type 0 where
  job_pending job_running job_succeeded job_dead : JobStatus

pub record Job : Type 0 where
  pub run_at_ms : ℕ
  pub status : JobStatus

pub data AttemptStatus : Type 0 where
  processing settled skipped failed : AttemptStatus

-- A row of `redis_engine_settlements`; `offset` stands for topic, partition and offset in Kafka.
pub record Attempt : Type 0 where
  pub stream_id : ℕ
  pub offset : Option ℕ
  pub engine_epoch : ℕ
  pub engine_seq : ℕ
  pub payload_sha256 : ℕ
  pub attempts : ℕ
  pub status : AttemptStatus
  pub updated_at_ms : ℕ

-- The columns of the checkpoint that order it.
pub record Checkpoint : Type 0 where
  pub engine_epoch : ℕ
  pub engine_seq : ℕ
  pub next_decision_offset : ℕ

-- `deposit_bps`, `deposit_floor_cents` and `deposit_cap_cents` of the rule.
pub record DepositRule : Type 0 where
  pub bps : Option ℤ
  pub floor_cents : Option ℤ
  pub cap_cents : Option ℤ

-- `bids` and `idem` are by user and client bid id, `events` by public seq, `expire_jobs` by order.
pub record Db : Type 0 where
  pub auction : Auction
  pub deposit_rule : DepositRule
  pub bids : ℕ → ℕ → Option Bid
  pub idem : ℕ → ℕ → Option IdemRow
  pub events : ℕ → Option Event
  pub outbox : List OutboxEvent
  pub order : Option Order
  pub end_job : Option Job
  pub expire_jobs : ℕ → Option Job
  pub attempts : List Attempt
  pub checkpoint : Option Checkpoint
  pub anomalies : List PauseReason

-- A ledger message; `payload` is `none` where the bytes are no decision.
pub record Message : Type 0 where
  pub id : ℕ
  pub auction_id : ℕ
  pub offset : Option ℕ
  pub payload : Option EngineResult

-- What a call takes from outside: the clock and a new order id.
pub record Env : Type 0 where
  pub now_ms : ℕ
  pub new_order_id : ℕ

pub data SettleError : Type 0 where
  permanent identity_conflict transient fenced_out sql_error : SettleError
