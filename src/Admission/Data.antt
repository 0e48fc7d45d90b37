-- ===== src/Admission/Data.antt =====
-- The keys, rows and settings that backend/internal/gateway/bid_admission.go reads. Ids and keys are
-- natural numbers, the empty one 0.
use live_auction.Common.{ℕ, Bool, Option, List}

-- The errors of an admission; a rate limit has its Retry-After in milliseconds.
pub data AdmissionError : Type 0 where
  invalid_argument : AdmissionError
  idempotency_key_reused_with_different_request : AdmissionError
  idempotency_timeout processing_retry_later : AdmissionError
  rate_limited bid_auction_too_hot : ℕ → AdmissionError

pub data IdemStatus : Type 0 where
  idem_processing idem_completed idem_failed idem_unknown : IdemStatus

pub data IdemResultCode : Type 0 where
  code_timeout code_fat_finger_confirm_required code_other : IdemResultCode

-- A row of idempotency_records with scope_type 'bid'.
pub record IdemRecord : Type 0 where
  pub request_hash : ℕ
  pub status : IdemStatus
  pub response : ℕ
  pub locked_until : Option ℕ
  pub completed_at : Option ℕ
  pub result_code : Option IdemResultCode

-- The keys of the limits: of a user in an auction, of an IP in an auction, of an auction.
pub data LimitKey : Type 0 where
  bid_limit_user_key bid_limit_ip_key : ℕ → ℕ → LimitKey
  bid_limit_auction_key : ℕ → LimitKey

-- The value of such a key, the theoretical arrival time, and the time when Redis drops the key.
pub record Tat : Type 0 where
  pub value : ℕ
  pub expires_at : ℕ

-- Whether Redis runs the script and answers, runs it without an answer, or does not run it.
pub data Reach : Type 0 where
  reached unanswered unreached : Reach

-- `bid_limit_window` is in nanoseconds. A limit below 1 is 0 here.
pub record AdmissionConfig : Type 0 where
  pub admission_enabled : Bool
  pub has_redis : Bool
  pub bid_limit_window : ℕ
  pub bid_user_limit : ℕ
  pub bid_ip_limit : ℕ
  pub bid_auction_limit : ℕ
  pub bid_auction_max_in_flight : ℕ

-- A bid or a confirmation: `body_key` is the client_bid_id of a bid and the idempotency key in the body of
-- a confirmation, which has no amount and no request hash; a bid has no confirm token. With the time at the gateway, the time at which its scripts run in Redis, and what becomes of
-- the call for each key.
pub record BidRequest : Type 0 where
  pub auction_id : ℕ
  pub user_id : ℕ
  pub ip : ℕ
  pub body_key : ℕ
  pub idempotency_key : ℕ
  pub amount_cents : ℕ
  pub request_hash : ℕ
  pub confirm_token : ℕ
  pub now_ms : ℕ
  pub redis_ms : ℕ
  pub reach : LimitKey → Reach

-- `redis_downs` counts the RATE_LIMIT_REDIS_DOWN anomalies, `rejects` has the errors of the rejections
-- that are recorded. `in_flight` is the fill of the semaphores of the auctions.
pub record AdmissionDb : Type 0 where
  pub idem : ℕ → ℕ → ℕ → Option IdemRecord
  pub keys : LimitKey → Option Tat
  pub in_flight : ℕ → ℕ
  pub redis_downs : ℕ
  pub rejects : List AdmissionError
