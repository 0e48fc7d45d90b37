-- ===== src/Engine/Data.antt =====
-- The Redis keys that the decision scripts of backend/internal/redisengine/engine.go read and
-- write for one auction, their arguments, and their results. Ids, hashes and prices are numbers; a
-- field of a hash that is not there is `none` (Lua's `false`).
use Prim.Native.String.{String}
use live_auction.Common.{ℕ, Bool, Option, List}

-- The status of an auction as the hash holds it; `blank` is '', and `unset` is what
-- `tostring(false)` makes of a missing field.
pub data EngineStatus : Type 0 where
  blank unset draft scheduled active sold ended cancelled reconciling : EngineStatus

pub data BidSource : Type 0 where
  manual auto_max_bid : BidSource

pub data ResultCode : Type 0 where
  engine_accepted engine_rejected engine_sold fat_finger_confirm_required : ResultCode

pub data RejectReason : Type 0 where
  auction_not_active auction_ended rejected_self_leading bid_above_cap bid_too_low : RejectReason
  bid_increment_mismatch : RejectReason

pub data SettlementStatus : Type 0 where
  settlement_pending settlement_not_required : SettlementStatus

pub data AppendStatus : Type 0 where
  append_unknown append_acked append_failed : AppendStatus

-- A confirm token: `'ft_' .. bid_id`, or any other text that a client sends.
pub data Token : Type 0 where
  ft other_text : ℕ → Token

pub data ErrorCode : Type 0 where
  idempotency_key_reused engine_paused engine_reconciling acl_forbidden : ErrorCode
  invalid_auction_rule confirm_token_invalid confirm_token_expired : ErrorCode

-- The hash under `state_key`.
pub record StateHash : Type 0 where
  pub status : Option EngineStatus
  pub current_price_cents : Option ℕ
  pub current_winner_id : Option (Option ℕ)
  pub start_price_cents : Option ℕ
  pub increment_cents : Option ℕ
  pub cap_price_cents : Option ℕ
  pub end_at_ms : Option ℕ
  pub extend_window_ms : Option ℕ
  pub extend_by_ms : Option ℕ
  pub max_extend_count : Option ℕ
  pub extend_count : Option ℕ
  pub accepted_bid_count : Option ℕ
  pub seq : Option ℕ
  pub engine_seq : Option ℕ
  pub engine_epoch : Option ℕ
  pub paused : Option Bool
  pub pause_reason : Option String
  pub requires_postgres : Option String
  pub absolute_end_ms : Option ℕ
  pub fat_finger_threshold_cents : Option ℕ

-- `snapshot`, the JSON of the PostgreSQL row that seeds a missing hash. A field that `omitempty`
-- leaves out is 0, or the empty text.
pub record Snapshot : Type 0 where
  pub status : EngineStatus
  pub current_price_cents : ℕ
  pub current_winner_id : Option ℕ
  pub start_price_cents : ℕ
  pub increment_cents : ℕ
  pub cap_price_cents : ℕ
  pub end_at_ms : ℕ
  pub absolute_end_ms : ℕ
  pub extend_window_ms : ℕ
  pub extend_by_ms : ℕ
  pub max_extend_count : ℕ
  pub extend_count : ℕ
  pub accepted_bid_count : ℕ
  pub seq : ℕ
  pub engine_seq : ℕ
  pub engine_epoch : ℕ
  pub paused : Bool
  pub pause_reason : String
  pub requires_postgres : String
  pub fat_finger_threshold_cents : Option ℕ

-- `decision_basis` of a result.
pub record Basis : Type 0 where
  pub previous_price_cents : ℕ
  pub required_min_price_cents : ℕ
  pub current_price_cents : ℕ
  pub reason : Option RejectReason
  pub engine_seq : ℕ

-- `engineResult`, the JSON that a script returns and stores.
pub record EngineResult : Type 0 where
  pub code : ResultCode
  pub bid_id : ℕ
  pub auction_id : ℕ
  pub user_id : ℕ
  pub client_bid_id : ℕ
  pub amount_cents : ℕ
  pub seq : ℕ
  pub engine_seq : ℕ
  pub engine_epoch : ℕ
  pub settlement_status : SettlementStatus
  pub reject_reason : Option RejectReason
  pub current_price_cents : ℕ
  pub current_winner_id : Option ℕ
  pub end_at_ms : ℕ
  pub extend_count : Option ℕ
  pub server_time_ms : ℕ
  pub trace_id : ℕ
  pub request_hash : ℕ
  pub source : Option BidSource
  pub confirm_token : Option Token
  pub expires_in_ms : Option ℕ
  pub decision_basis : Option Basis

-- The hash under `idem_key`; with every field `none` the key is not there.
pub record IdemHash : Type 0 where
  pub request_hash : Option ℕ
  pub result_json : Option EngineResult
  pub engine_seq : Option ℕ
  pub engine_epoch : Option ℕ
  pub kafka_append_status : Option AppendStatus
  pub expires_at_ms : Option ℕ
  pub ttl_ms : Option ℕ

-- An entry of the decision log stream.
pub record LogEntry : Type 0 where
  pub engine_seq : ℕ
  pub engine_epoch : ℕ
  pub result : ResultCode
  pub auction_id : ℕ
  pub payload : EngineResult

-- The hash under a pending-confirm key: its three fields are written together.
pub record PendingConfirm : Type 0 where
  pub amount : ℕ
  pub token : Token
  pub expires_at_ms : ℕ
  pub ttl_ms : ℕ

-- All keys of one auction. `idem` is by client bid id, `pending_confirm` by user and client bid
-- id, `members` holds the ACL keys by user; the log's newest entry comes first. A `ttl` is the last
-- `PEXPIRE` of its key.
pub record Keyspace : Type 0 where
  pub state : Option StateHash
  pub state_ttl_ms : ℕ
  pub idem : ℕ → IdemHash
  pub pending : ℕ → Option EngineResult
  pub pending_ttl_ms : ℕ
  pub log : List LogEntry
  pub log_ttl_ms : ℕ
  pub pending_confirm : ℕ → ℕ → Option PendingConfirm
  pub members : ℕ → Bool

-- The `ARGV` that both scripts take.
pub record Call : Type 0 where
  pub now_ms : ℕ
  pub auction_id : ℕ
  pub user_id : ℕ
  pub client_bid_id : ℕ
  pub amount : ℕ
  pub request_hash : ℕ
  pub trace_id : ℕ
  pub bid_id : ℕ
  pub state_ttl_ms : ℕ
  pub idem_ttl_ms : ℕ

-- `KEYS` and `ARGV` of the bid script. `has_acl` says that `acl_key` is not the empty text, and
-- `state_json` is `none` for the empty text.
pub record BidArgs : Type 0 where
  pub call : Call
  pub open call use *
  pub state_json : Option Snapshot
  pub bid_source : BidSource
  pub has_acl : Bool

-- `ARGV` of the confirm script.
pub record ConfirmArgs : Type 0 where
  pub call : Call
  pub open call use *
  pub confirm_token : Token

-- What a script returns: `{'REPLAY', json}`, `{'OK', json}` or `{'ERROR', code, detail}`.
pub data Reply : Type 0 where
  replay : EngineResult → Reply
  ok : EngineResult → Reply
  error : ErrorCode → String → Reply
