-- ===== src/Settle/Written/Accepted.antt =====
-- The settlement of an accepted bid with nothing in its way, `settleAccepted` of redisengine/engine.go.
use live_auction.Common.{◌+◌, ◌≡◌, true, none, some}
use live_auction.Engine.Data.{EngineResult}
use live_auction.Settle.Data.{Db, Env}
use live_auction.Settle.Apply.{
  applied, accepted_row, accepted_result_code, event_of, accepted_payload, order_or_job,
  settle_accepted, settled_response,
}
use live_auction.Settle.Written.{
  Fits, Wrote, Published, insert_bid_fresh, order_or_job-Keeps, with_event, publish_fits, with_bid,
  publish-Wrote, with_event-Published,
}

-- An accepted bid that fits is settled: its row, bid, record and event are written.
pub settle_accepted-Wrote :
    (env : Env) (r : EngineResult) (db : Db)
    → Fits r db
    → (db' : Db) × (settle_accepted env r db ≡ applied db')
      × Wrote r (accepted_row r db.auction) true (accepted_result_code r) db db'
      × Published (db.auction.seq + 1) db db'
unfolding settle_accepted accepted_row
settle_accepted-Wrote env r db f =
    let row = accepted_row r db.auction in
    let json = settled_response r (accepted_result_code r) row.seq in
    let db1 = with_bid r row (some row.seq) true none json db in
    let k = order_or_job-Keeps env r (accepted_payload r db.auction.end_at_ms) db1 in
    let db2 = (order_or_job env r (accepted_payload r db.auction.end_at_ms) db1).1 in
    let payload = (order_or_job env r (accepted_payload r db.auction.end_at_ms) db1).0 in
    (
      with_event r row.seq (event_of r db.auction.end_at_ms) payload (accepted_result_code r) json
          db2,
      rw
          (
            f.fence,
            settle_accepted,
            insert_bid_fresh r (some row.seq) true none json (record db { auction = row }) f.no_bid,
          )
          (publish_fits r row.seq (event_of r db.auction.end_at_ms) payload (accepted_result_code r)
            json db2 (rw k.outbox (f.no_outbox (event_of r db.auction.end_at_ms)))
            (rw k.idem f.idem_fits)),
      publish-Wrote r row (some row.seq) true none (accepted_result_code r) json _ payload db db2 k,
      with_event-Published r row.seq _ payload (accepted_result_code r) json db db2 k.outbox,
    )
