-- ===== src/Closing.antt =====
-- The natural end of an auction: FenceAuctionForScheduler and FenceAuction of
-- backend/internal/redisengine/engine.go and processEndAuction of backend/internal/scheduler/scheduler.go.
pub mod Data
pub mod Still
pub mod Sealed
mod Tests
use Prim.Native.String.{String}
use live_auction.Common.{
  ℕ, suc, ◌+◌, Bool, true, false, ◌&&◌, not, Option, none, some, List, [], ◌∷◌, length, ltb, ◌==◌,
  is_none, or_default, if◌then◌else◌,
}
use live_auction.Common.Int.{ℤ, pos}
use live_auction.Engine.Data.{EngineStatus, sold, ended, StateHash, Keyspace}
use live_auction.Engine.State.{Live, read_hash, is_active}
use live_auction.Engine.Run.{run}
use live_auction.Deposit.{calculate_deposit}
use live_auction.Settle.Data.{Auction}
use live_auction.Closing.Data.{
  RunnerStatus, job_pending, job_succeeded, job_dead, JobRow, EndOrder, EndKind, auction_ended,
  auction_sold, EndEvent, EndDb, EndEnv,
}

-- The fence passes, or the job runs again at this time; true where it also moves the end of the auction.
pub data Fence : Type 0 where
  fence_passed : Fence
  fence_retry : ℕ → Bool → Fence

-- HSET of the pause fields on the hash.
abbrev pub set_pause : Bool → String → Keyspace → Keyspace
set_pause p reason ks = record ks {
  state = elim ks.state [
    | none ↦ none
    | some h ↦ some (record h { paused = some p; pause_reason = some reason })
  ];
}

abbrev pub same_winner : Option ℕ → Option ℕ → Bool
same_winner none none = true
same_winner (some u) (some v) = u == v
same_winner _ _ = false

-- The comparison of the values that were read with the row of the auction. A lifted pause is lifted
-- whoever had set it.
unfoldable pub check_fence : EndEnv → Auction → Live → Keyspace → Fence × Keyspace
check_fence e row s ks =
    if ltb e.relayed (length ks.log)
    then (fence_retry (e.redis_now + 500) false, ks)
    else if ltb row.end_at_ms s.end_at_ms
    then (fence_retry s.end_at_ms true, set_pause false "" ks)
    else if not (s.current_price == row.current_price_cents)
    then (fence_retry (e.redis_now + 500) false, set_pause false "" ks)
    else if not (same_winner s.current_winner row.current_winner_id)
    then (fence_retry (e.redis_now + 500) false, set_pause false "" ks)
    else if ltb 0 s.end_at_ms && ltb e.redis_now s.end_at_ms
    then (fence_retry s.end_at_ms false, set_pause false "" ks)
    else (fence_passed, ks)

abbrev pub fenced_keys : EndEnv → Keyspace → Keyspace
fenced_keys e ks = run e.after_pause (set_pause true "SCHEDULER_ENDING" (run e.after_read ks))

-- `FenceAuctionForScheduler`.
unfoldable pub fence_auction_for_scheduler : EndEnv → Auction → Keyspace → Fence × Keyspace
unfolding check_fence
fence_auction_for_scheduler e row ks = elim ks.state [
  | none ↦ (fence_passed, ks)
  | some h ↦ check_fence e row (read_hash h) (fenced_keys e ks)
]

-- `FenceAuction`, after the scheduler has committed.
abbrev pub fence_hash : Bool → StateHash → StateHash
fence_hash is_sold h = if is_none h.engine_seq then h else record h {
  paused = some true;
  pause_reason = some (if is_sold then "SCHEDULER_SOLD" else "SCHEDULER_ENDED");
  status = some (if is_sold then sold else ended);
}

unfoldable pub fence_auction : Bool → Keyspace → Keyspace
fence_auction is_sold ks = record ks {
  state = elim ks.state [ none ↦ none | some h ↦ some (fence_hash is_sold h) ];
}

abbrev pub mark_succeeded : EndDb → EndDb
mark_succeeded db = record db { job = record db.job { status = job_succeeded } }

abbrev pub reschedule : ℕ → EndDb → EndDb
reschedule at db = record db {
  job = record { status = job_pending; run_at = at; next_attempt_at = at };
}

-- `rescheduleEndAuctionTx` on an active auction.
abbrev pub reschedule_end_auction : ℕ → EndDb → EndDb
reschedule_end_auction at db = reschedule at (
    if is_active db.auction.status && ltb db.auction.end_at_ms at
    then record db { auction = record db.auction { end_at_ms = at } }
    else db)

-- INSERT of the order, which leaves one that is there.
abbrev pub upsert_order : EndEnv → ℕ → EndDb → EndOrder
upsert_order e winner db = or_default db.order (record {
  id = e.order_id;
  winner_id = winner;
  amount_cents = db.auction.current_price_cents;
  deposit_cents =
      calculate_deposit (pos db.auction.current_price_cents) e.deposit_bps e.deposit_floor_cents
        e.deposit_cap_cents;
  expire_at = e.now + 900000;
})

abbrev pub kept_status : RunnerStatus → RunnerStatus
kept_status job_succeeded = job_succeeded
kept_status job_dead = job_dead
kept_status _ = job_pending

-- `upsertSchedulerJob` of the EXPIRE_ORDER job.
abbrev pub upsert_expire_job : ℕ → Option JobRow → JobRow
upsert_expire_job at none = record { status = job_pending; run_at = at; next_attempt_at = at }
upsert_expire_job at (some j) = record {
  status = kept_status j.status;
  run_at = at;
  next_attempt_at = at;
}

-- `appendAuctionEvent`; each event has its entry in the outbox.
abbrev pub append_auction_event : EndKind → ℕ → EndDb → EndDb
append_auction_event kind now db = record db {
  auction = record db.auction { seq = suc db.auction.seq; version = suc db.auction.version };
  events =
      record {
        seq = suc db.auction.seq;
        kind = kind;
        ended_at = now;
        state_version = suc db.auction.version;
      }
      ∷ db.events;
}

-- The terminal transition, with or without a winner.
unfoldable pub end_auction : EndEnv → EndDb → EndDb
end_auction e db = elim db.auction.current_winner_id [
  | some winner ↦
      let order = upsert_order e winner db in
      mark_succeeded (
        append_auction_event (auction_sold winner db.auction.current_price_cents) e.now (record db {
          auction = record db.auction { status = sold };
          order = some order;
          expire_job = some (upsert_expire_job order.expire_at db.expire_job);
        }))
  | none ↦ mark_succeeded (
      append_auction_event auction_ended e.now
        (record db { auction = record db.auction { status = ended } }))
]

unfoldable pub after_fence : EndEnv → EndDb → Fence × Keyspace → EndDb × Keyspace
unfolding end_auction fence_auction
after_fence e db (fence_passed, ks) = (
  end_auction e db,
  fence_auction (not (is_none db.auction.current_winner_id)) (run e.after_check ks),
)
after_fence e db (fence_retry at moves, ks) = (
  if moves && ltb db.auction.end_at_ms at then reschedule_end_auction at db else reschedule at db,
  ks,
)

-- `processEndAuction`.
unfoldable pub process_end_auction : EndEnv → EndDb → Keyspace → EndDb × Keyspace
unfolding fence_auction_for_scheduler after_fence
process_end_auction e db ks =
    if not (is_active db.auction.status)
    then (mark_succeeded db, ks)
    else if ltb e.now db.auction.end_at_ms
    then (reschedule db.auction.end_at_ms db, ks)
    else after_fence e db (fence_auction_for_scheduler e db.auction ks)
