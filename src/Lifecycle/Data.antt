-- ===== src/Lifecycle/Data.antt =====
-- The rows that the host's operations of backend/internal/auction/repository.go read and write. Ids are natural
-- numbers, times milliseconds; the item, the columns that bids write and created_at are left out.
use live_auction.Common.{ℕ, Bool, Option, List}
use live_auction.Common.Int.{ℤ}
use live_auction.Rules.{RuleViolation}
use live_auction.Closing.Data.{JobRow}

pub data Status : Type 0 where
  status_draft status_scheduled status_active : Status
  status_sold status_ended status_cancelled : Status

pub record Rule : Type 0 where
  pub duration_seconds : ℤ
  pub extend_window_seconds : ℤ
  pub extend_by_seconds : ℤ
  pub max_extend_count : ℤ
  pub fat_finger_threshold_cents : Option ℤ
  pub deposit_bps : ℤ
  pub deposit_floor_cents : ℤ
  pub deposit_cap_cents : ℤ

-- A row of auction_rules.
pub record RuleRow : Type 0 where
  pub rule_version : ℕ
  pub rule : Rule
  pub frozen_at : Option ℕ

pub record CreateAuctionInput : Type 0 where
  pub room_id : ℕ
  pub item_id : ℕ
  pub start_price_cents : ℤ
  pub increment_cents : ℤ
  pub cap_price_cents : Option ℤ
  pub rule : Rule

pub record UpdateRulesInput : Type 0 where
  pub start_price_cents : ℤ
  pub increment_cents : ℤ
  pub cap_price_cents : Option ℤ
  pub rule : Rule

-- The type of an event with its payload.
pub data LifeKind : Type 0 where
  auction_created auction_unscheduled narrate_started narrate_stopped : LifeKind
  auction_scheduled : LifeKind
  rules_updated : ℕ → LifeKind
  auction_started : ℕ → ℕ → LifeKind
  auction_cancelled : Status → ℕ → LifeKind
  auction_end_shortened : ℕ → ℕ → ℤ → LifeKind
  auction_closed : Status → LifeKind

-- A row of auction_events, which has an entry in the outbox.
pub record LifeEvent : Type 0 where
  pub seq : ℕ
  pub state_version : ℕ
  pub kind : LifeKind
  pub server_time_ms : ℕ

-- A row of auctions with the rows of auction_rules, the newest first, its events, the newest first, and its
-- END_AUCTION job.
pub record Lot : Type 0 where
  pub id : ℕ
  pub room_id : ℕ
  pub status : Status
  pub is_narrating : Bool
  pub narrating_started_at : Option ℕ
  pub current_price_cents : ℤ
  pub start_price_cents : ℤ
  pub increment_cents : ℤ
  pub cap_price_cents : Option ℤ
  pub start_at : Option ℕ
  pub end_at : Option ℕ
  pub version : ℕ
  pub seq : ℕ
  pub rule_version : ℕ
  pub rules : List RuleRow
  pub events : List LifeEvent
  pub end_job : Option JobRow

-- An error of the operations; `database_error` is a violated key that has no code of its own.
pub data LifeError : Type 0 where
  auction_not_found invalid_argument rule_frozen_after_scheduled : LifeError
  conflict_room_has_active_auction conflict_room_has_narration : LifeError
  invalid_narrate_target database_error : LifeError
  rule_refused : RuleViolation → LifeError

-- The clock, and the rows that rooms and items have.
pub record LifeEnv : Type 0 where
  pub now : ℕ
  pub has_room : ℕ → Bool
  pub has_item : ℕ → Bool
