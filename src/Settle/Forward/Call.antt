-- ===== src/Settle/Forward/Call.antt =====
-- Every call of `settlePayload` of redisengine/engine.go moves the row of `auctions` forward or not at all.
use live_auction.Common.{ℕ, ◌≡◌, inl, inr, sym, subst, Option-cases, Bool-cases, ◌==◌, arith}
use live_auction.Engine.Data.{
  engine_accepted, engine_rejected, engine_sold, fat_finger_confirm_required, ResultCode,
  EngineResult,
}
use live_auction.Settle.Data.{Auction, Db, Message, Env}
use live_auction.Settle.Rows.{pause_tx, upsert_engine_checkpoint}
use live_auction.Settle.Attempt.{
  Recorded, attempted, not_attempted, mark_identity_conflict, claim_stale, existing_attempt,
  insert_attempt, record_attempt,
}
use live_auction.Settle.Apply.{
  Applied, applied, conflicted, broken, uncommitted, settle_accepted, settle_rejected,
}
use live_auction.Settle.Next.{committed-auction}
use live_auction.Settle.Worker.{
  finish, settle_result, settle_locked, settle_attempted, settle_payload,
}
use live_auction.Settle.Forward.{
  Forward, Forward-refl, ForwardApplied, settle_rejected-Forward, settle_accepted-Forward,
}

finish-Forward :
    (env : Env) (m : Message) (db : Db) (a : Applied)
    → ForwardApplied db.auction a
    → Forward db.auction (finish env m db a).1.auction
unfolding finish upsert_engine_checkpoint pause_tx
finish-Forward env m db (applied db') f =
    subst (Forward db.auction) (sym (committed-auction env m db')) f
finish-Forward env m db (conflicted db') f = record {
  epoch = f.epoch;
  number = f.number;
  public_number = f.public_number;
  counted = f.counted;
}
finish-Forward env m db uncommitted f = Forward-refl db.auction
finish-Forward env m db (broken e) f = Forward-refl db.auction

settle_result-Forward :
    (env : Env) (m : Message) (r : EngineResult) (db : Db) (c : ResultCode)
    → Forward db.auction (settle_result env m r db c).1.auction
unfolding settle_result
settle_result-Forward env m r db engine_accepted =
    finish-Forward env m db (settle_accepted env r db) (settle_accepted-Forward env r db)
settle_result-Forward env m r db engine_sold =
    finish-Forward env m db (settle_accepted env r db) (settle_accepted-Forward env r db)
settle_result-Forward env m r db engine_rejected =
    finish-Forward env m db (settle_rejected r db) (settle_rejected-Forward r db)
settle_result-Forward env m r db fat_finger_confirm_required = Forward-refl db.auction

settle_attempted-Forward :
    (env : Env) (m : Message) (r : EngineResult) (a : Recorded) (db : Db)
    → Forward db.auction (settle_attempted env m r a db).1.auction
unfolding settle_attempted settle_locked pause_tx
settle_attempted-Forward env m r (not_attempted e) db = Forward-refl db.auction
settle_attempted-Forward env m r (attempted n status) db =
    let result = settle_result-Forward env m r db r.code in
    let same = Forward-refl db.auction in
    ground (arith, result, same.epoch, same.number, same.public_number, same.counted)

Forward-after :
    (row row1 row2 : Auction)
    → row1.engine_epoch ≡ row.engine_epoch
    → row1.engine_seq ≡ row.engine_seq
    → row1.seq ≡ row.seq
    → row1.accepted_bid_count ≡ row.accepted_bid_count
    → Forward row1 row2
    → Forward row row2
Forward-after row row1 row2 e n p c f =
    ground (arith, e, n, p, c, f.epoch, f.number, f.public_number, f.counted)

record_attempt-auction :
    (digest : EngineResult → ℕ) (env : Env) (m : Message) (r : EngineResult) (db : Db)
    → let row = db.auction in
      let row1 = (record_attempt digest env m r db).1.auction in
      (row1.engine_epoch ≡ row.engine_epoch)
      × (row1.engine_seq ≡ row.engine_seq)
      × (row1.seq ≡ row.seq)
      × (row1.accepted_bid_count ≡ row.accepted_bid_count)
unfolding record_attempt insert_attempt existing_attempt claim_stale mark_identity_conflict pause_tx
record_attempt-auction digest env m r db = ground arith

-- One call for any message, whether it is malformed, a duplicate, early, late or in conflict: the row
-- stays in its epoch, its `engine_seq` stays or moves on by one, its public `seq` too, and its number of
-- accepted bids does not fall.
pub settle_payload-Forward :
    (digest : EngineResult → ℕ) (env : Env) (m : Message) (db : Db)
    → Forward db.auction (settle_payload digest env m db).1.auction
unfolding settle_payload
settle_payload-Forward digest env m db = elim (Option-cases m.payload) [
  | inl e ↦ rw (e, settle_payload) (Forward-refl db.auction)
  | inr (r, e) ↦
      let (recorded, db1) = record_attempt digest env m r db in
      let (same, number, public_number, count) = record_attempt-auction digest env m r db in
      let attempted_forward =
        Forward-after db.auction db1.auction (settle_attempted env m r recorded db1).1.auction same
          number public_number count (settle_attempted-Forward env m r recorded db1) in
      elim (Bool-cases (r.auction_id == m.auction_id)) [
        | inl here ↦ rw (e, settle_payload, here) attempted_forward
        | inr there ↦ rw (e, settle_payload, there) (Forward-refl db.auction)
      ]
]
