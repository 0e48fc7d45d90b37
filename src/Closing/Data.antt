-- ===== src/Closing/Data.antt =====
-- The rows that an END_AUCTION job of backend/internal/scheduler/scheduler.go reads and writes. The lock and
-- the last error of a job are left out, and of the auction the columns on its narration.
use live_auction.Common.{ℕ, Option, List}
use live_auction.Common.Int.{ℤ}
use live_auction.Settle.Data.{Auction}
use live_auction.Engine.Run.{Op}

pub data RunnerStatus : Type 0 where
  job_pending job_running job_succeeded job_failed job_dead : RunnerStatus

pub record JobRow : Type 0 where
  pub status : RunnerStatus
  pub run_at : ℕ
  pub next_attempt_at : ℕ

-- A row of orders; its status is ORDER_PENDING and its deposit HELD.
pub record EndOrder : Type 0 where
  pub id : ℕ
  pub winner_id : ℕ
  pub amount_cents : ℕ
  pub deposit_cents : ℤ
  pub expire_at : ℕ

-- `auction_ended`, or `auction_sold` with the winner and the amount.
pub data EndKind : Type 0 where
  auction_ended : EndKind
  auction_sold : ℕ → ℕ → EndKind

pub record EndEvent : Type 0 where
  pub seq : ℕ
  pub kind : EndKind
  pub ended_at : ℕ
  pub state_version : ℕ

-- The auction with its order, the EXPIRE_ORDER job of the order, the terminal events, and the
-- END_AUCTION job.
pub record EndDb : Type 0 where
  pub auction : Auction
  pub order : Option EndOrder
  pub expire_job : Option JobRow
  pub events : List EndEvent
  pub job : JobRow

-- The clock of the scheduler and of the engine, the id for a new order, the deposit rule, and the calls of
-- the scripts that Redis runs meanwhile: after the hash is read, after it is paused, and after it
-- is checked. `relayed` is the number of entries of the log that are relayed.
pub record EndEnv : Type 0 where
  pub now : ℕ
  pub redis_now : ℕ
  pub order_id : ℕ
  pub deposit_bps : ℤ
  pub deposit_floor_cents : ℤ
  pub deposit_cap_cents : ℤ
  pub after_read : List Op
  pub after_pause : List Op
  pub after_check : List Op
  pub relayed : ℕ
