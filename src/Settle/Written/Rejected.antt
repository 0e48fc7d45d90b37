-- ===== src/Settle/Written/Rejected.antt =====
-- The settlement of a rejection with nothing in its way, `settleRejected` of redisengine/engine.go.
use live_auction.Common.{
  ◌+◌, ◌≡◌, refl, sym, subst, true, false, none, some, inl, inr, Bool-cases, arith,
}
use live_auction.Engine.Data.{EngineResult}
use live_auction.Settle.Data.{bid_rejected, Auction, event_bid_rejected, Db}
use live_auction.Settle.Rows.{set, bid_row, idem_row, should_broadcast_reject}
use live_auction.Settle.Apply.{
  applied, rejected_row, rejected_payload, settle_rejected, write_rejected, settled_response,
}
use live_auction.Settle.Written.{
  Fits, Wrote, complete_idem_fits, insert_bid_fresh, with_event, publish_fits, with_bid,
  publish-Wrote,
}

-- The rows after a rejection that is not broadcast, which writes no event, and after one that is.
abbrev quiet_db : EngineResult → Auction → Db → Db
quiet_db r row db =
    let json = settled_response r bid_rejected row.seq in
    record (with_bid r row none false r.reject_reason json db) {
      idem = set db.idem r.user_id r.client_bid_id (some (idem_row r bid_rejected json));
    }

abbrev loud_db : EngineResult → Auction → Db → Db
loud_db r row db =
    let json = settled_response r bid_rejected row.seq in
    with_event r row.seq event_bid_rejected (rejected_payload r) bid_rejected json
      (with_bid r row (some row.seq) false r.reject_reason json db)

write_rejected-quiet :
    (r : EngineResult) (row : Auction) (db : Db)
    → Fits r db
    → write_rejected false r row db ≡ applied (quiet_db r row db)
unfolding write_rejected
write_rejected-quiet r row db f =
    let json = settled_response r bid_rejected row.seq in
    rw
      (
        write_rejected,
        insert_bid_fresh r none false r.reject_reason json (record db { auction = row }) f.no_bid,
        complete_idem_fits r bid_rejected json (with_bid r row none false r.reject_reason json db)
            f.idem_fits,
      )
      refl

write_rejected-loud :
    (r : EngineResult) (row : Auction) (db : Db)
    → Fits r db
    → row.seq ≡ db.auction.seq + 1
    → write_rejected true r row db ≡ applied (loud_db r row db)
unfolding write_rejected
write_rejected-loud r row db f q =
    let json = settled_response r bid_rejected row.seq in
    rw
      (
        write_rejected,
        insert_bid_fresh r (some row.seq) false r.reject_reason json (record db { auction = row })
            f.no_bid,
      )
      (publish_fits r row.seq event_bid_rejected (rejected_payload r) bid_rejected json
        (with_bid r row (some row.seq) false r.reject_reason json db)
        (rw q (f.no_outbox event_bid_rejected)) f.idem_fits)

loud_db-Wrote :
    (r : EngineResult) (row : Auction) (db : Db)
    → Wrote r row false bid_rejected db (loud_db r row db)
loud_db-Wrote r row db =
    let json = settled_response r bid_rejected row.seq in
    publish-Wrote r row (some row.seq) false r.reject_reason bid_rejected json event_bid_rejected
      (rejected_payload r) db (with_bid r row (some row.seq) false r.reject_reason json db)
      (record {
        row = refl;
        bids = refl;
        idem = refl;
        outbox = refl;
        attempts = refl;
        checkpoint = refl;
      })

quiet_db-Wrote :
    (r : EngineResult) (row : Auction) (db : Db)
    → Wrote r row false bid_rejected db (quiet_db r row db)
quiet_db-Wrote r row db =
    let json = settled_response r bid_rejected row.seq in
    record {
      row_written = refl;
      bid_written = (bid_row r none false r.reject_reason json, refl, refl, refl, refl, refl);
      idem_written = (idem_row r bid_rejected json, refl, refl, refl, refl);
      no_later_outbox = λ seq t later out. out;
      attempts_kept = refl;
      checkpoint_kept = refl;
    }

rejected_row-seq :
    (r : EngineResult) (row : Auction)
    → should_broadcast_reject r.reject_reason ≡ true
    → (rejected_row r row).seq ≡ row.seq + 1
unfolding rejected_row
rejected_row-seq r row q = ground (arith, q)

-- A rejection that fits is settled: its row, bid and record are written.
pub settle_rejected-Wrote :
    (r : EngineResult) (db : Db)
    → Fits r db
    → (db' : Db) × (settle_rejected r db ≡ applied db')
      × Wrote r (rejected_row r db.auction) false bid_rejected db db'
unfolding settle_rejected
settle_rejected-Wrote r db f =
    let row = rejected_row r db.auction in
    elim (Bool-cases (should_broadcast_reject r.reject_reason)) [
      | inl loud ↦ (
        loud_db r row db,
        rw (f.fence, settle_rejected)
            (subst (λ b. write_rejected b r row db ≡ applied (loud_db r row db)) (sym loud)
              (write_rejected-loud r row db f (rejected_row-seq r db.auction loud))),
        loud_db-Wrote r row db,
      )
      | inr quiet ↦ (
        quiet_db r row db,
        rw (f.fence, settle_rejected)
            (subst (λ b. write_rejected b r row db ≡ applied (quiet_db r row db)) (sym quiet)
              (write_rejected-quiet r row db f)),
        quiet_db-Wrote r row db,
      )
    ]
