-- ===== src/Settle/Worker.antt =====
-- `settlePayload` of redisengine/engine.go: one ledger message, once.
use live_auction.Common.{ℕ, suc, ◌&&◌, not, none, some, ltb, leb, ◌==◌, if◌then◌else◌}
use live_auction.Engine.Data.{
  ResultCode, engine_accepted, engine_rejected, engine_sold, fat_finger_confirm_required,
  EngineResult,
}
use live_auction.Settle.Data.{
  redis_engine_stale_epoch, redis_engine_ledger_gap, settlement_identity_conflict, processing,
  settled, skipped, failed, Db, Message, Env, SettleError, permanent, identity_conflict, transient,
}
use live_auction.Settle.Rows.{pause_tx, upsert_engine_checkpoint}
use live_auction.Settle.Attempt.{
  mark, is_finished, Recorded, attempted, not_attempted, record_attempt,
}
use live_auction.Settle.Apply.{
  Applied, applied, conflicted, broken, uncommitted, settle_accepted, settle_rejected,
}

pub data Settled : Type 0 where
  done : Settled
  refused_settle : SettleError → Settled

abbrev pub max_settle_attempts : ℕ
max_settle_attempts = 3

-- The end of the transaction. A conflict commits what the settlement had changed, where the database
-- lets it; the error of a refused commit is ignored. All else rolls back to the rows before it, `before`.
unfoldable pub finish : Env → Message → Db → Applied → Settled × Db
unfolding upsert_engine_checkpoint pause_tx
finish env m before (applied db) =
    (done, upsert_engine_checkpoint m.offset (mark env m.id settled db))
finish env m before (conflicted db) = (
  refused_settle identity_conflict,
  pause_tx settlement_identity_conflict (mark env m.id failed db),
)
finish env m before uncommitted = (refused_settle identity_conflict, before)
finish env m before (broken e) = (refused_settle e, before)

-- The switch on the result.
unfoldable pub settle_result : Env → Message → EngineResult → Db → ResultCode → Settled × Db
unfolding settle_accepted settle_rejected finish
settle_result env m r db engine_accepted = finish env m db (settle_accepted env r db)
settle_result env m r db engine_sold = finish env m db (settle_accepted env r db)
settle_result env m r db engine_rejected = finish env m db (settle_rejected r db)
settle_result env m r db fat_finger_confirm_required =
    (refused_settle permanent, mark env m.id failed db)

-- The tests on the epoch and the number, under the lock on the row.
unfoldable pub settle_locked : Env → Message → EngineResult → ℕ → Db → Settled × Db
unfolding settle_result pause_tx
settle_locked env m r attempts db =
    if not (r.engine_epoch == db.auction.engine_epoch)
    then (if ltb r.engine_epoch db.auction.engine_epoch && leb r.engine_seq db.auction.engine_seq
        then (done, mark env m.id skipped db)
        else (done, pause_tx redis_engine_stale_epoch (mark env m.id failed db)))
    else if ltb (suc db.auction.engine_seq) r.engine_seq
    then (
      refused_settle (if leb max_settle_attempts attempts then permanent else transient),
      mark env m.id processing db,
    )
    else if leb r.engine_seq db.auction.engine_seq
    then (done, pause_tx redis_engine_ledger_gap (mark env m.id failed db))
    else settle_result env m r db r.code

unfoldable pub settle_attempted : Env → Message → EngineResult → Recorded → Db → Settled × Db
unfolding settle_locked
settle_attempted env m r (not_attempted e) db = (refused_settle e, db)
settle_attempted env m r (attempted n status) db =
    if is_finished status then (done, db) else settle_locked env m r n db

unfoldable pub settle_payload : (EngineResult → ℕ) → Env → Message → Db → Settled × Db
unfolding record_attempt settle_attempted
settle_payload digest env m db = elim m.payload [
  | none ↦ (refused_settle permanent, db)
  | some r ↦
      if not (r.auction_id == m.auction_id)
      then (refused_settle permanent, db)
      else (let (recorded, db') = record_attempt digest env m r db in
          settle_attempted env m r recorded db')
]
