-- ===== src/Settle/Next.antt =====
-- The settlement of the next decision by `settlePayload` of redisengine/engine.go: a message that no row
-- knows yet, with nothing in its way.
use live_auction.Common.{ℕ, ◌≡◌, ◌≢◌, refl, ap, ◌∙◌, Bool, true, false, none, some, ◌∷◌, arith}
use live_auction.Engine.Data.{
  ResultCode, engine_accepted, engine_rejected, engine_sold, fat_finger_confirm_required,
  EngineResult,
}
use live_auction.Settle.Data.{
  BidResult, bid_rejected, Auction, processing, settled, Attempt, Db, Message, Env,
}
use live_auction.Settle.Rows.{upsert_engine_checkpoint}
use live_auction.Settle.Attempt.{
  find, for_stream, same_offset, same_number, mark, attempted, insert_attempt, record_attempt,
}
use live_auction.Settle.Apply.{accepted_row, rejected_row, passes_fence, accepted_result_code}
use live_auction.Settle.Worker.{
  done, finish, settle_result, settle_locked, settle_attempted, settle_payload,
}
use live_auction.Settle.Written.{Fits, Wrote}
use live_auction.Settle.Written.Accepted.{settle_accepted-Wrote}
use live_auction.Settle.Written.Rejected.{settle_rejected-Wrote}

abbrev pub row_of : ResultCode → EngineResult → Auction → Auction
row_of engine_rejected r row = rejected_row r row
row_of _ r row = accepted_row r row

abbrev pub is_accepted : ResultCode → Bool
is_accepted engine_rejected = false
is_accepted _ = true

abbrev pub code_of : ResultCode → EngineResult → BidResult
code_of engine_rejected r = bid_rejected
code_of _ r = accepted_result_code r

-- The rows after the transaction's last two statements.
abbrev pub committed : Env → Message → Db → Db
committed env m db = upsert_engine_checkpoint m.offset (mark env m.id settled db)

pub committed-auction :
    (env : Env) (m : Message) (db : Db) → (committed env m db).auction ≡ db.auction
unfolding upsert_engine_checkpoint
committed-auction env m db = ground arith

settle_result-Wrote :
    (env : Env) (m : Message) (r : EngineResult) (db : Db) (c : ResultCode)
    → c ≢ fat_finger_confirm_required
    → Fits r db
    → (db1 : Db) × (settle_result env m r db c ≡ (done, committed env m db1))
      × Wrote r (row_of c r db.auction) (is_accepted c) (code_of c r) db db1
unfolding settle_result finish
settle_result-Wrote env m r db engine_accepted n f =
    let (db1, e, w, p) = settle_accepted-Wrote env r db f in (db1, ap (finish env m db) e, w)
settle_result-Wrote env m r db engine_sold n f =
    let (db1, e, w, p) = settle_accepted-Wrote env r db f in (db1, ap (finish env m db) e, w)
settle_result-Wrote env m r db engine_rejected n f =
    let (db1, e, w) = settle_rejected-Wrote r db f in (db1, ap (finish env m db) e, w)
settle_result-Wrote env m r db fat_finger_confirm_required n f = absurd (n refl)

pub settle_locked-next :
    (env : Env) (m : Message) (r : EngineResult) (attempts : ℕ) (db : Db)
    → passes_fence r db.auction ≡ true
    → settle_locked env m r attempts db ≡ settle_result env m r db r.code
unfolding settle_locked
settle_locked-next env m r attempts db f = ground (arith, f)

-- No row has the message's stream id, its offset, or the decision's number.
pub record IsNew (m : Message) (r : EngineResult) (db : Db) : Type 0 where
  pub no_stream : find (for_stream m.id) db.attempts ≡ none
  pub no_offset : find (same_offset m.offset) db.attempts ≡ none
  pub no_number : find (same_number r) db.attempts ≡ none

-- The row of a first attempt.
abbrev pub first_attempt : (EngineResult → ℕ) → Env → Message → EngineResult → Attempt
first_attempt digest env m r = record {
  stream_id = m.id;
  offset = m.offset;
  engine_epoch = r.engine_epoch;
  engine_seq = r.engine_seq;
  payload_sha256 = digest r;
  attempts = 1;
  status = processing;
  updated_at_ms = env.now_ms;
}

abbrev pub with_attempt : (EngineResult → ℕ) → Env → Message → EngineResult → Db → Db
with_attempt digest env m r db = record db { attempts = first_attempt digest env m r ∷ db.attempts }

pub record_attempt-new :
    (digest : EngineResult → ℕ) (env : Env) (m : Message) (r : EngineResult) (db : Db)
    → IsNew m r db
    → record_attempt digest env m r db ≡ (attempted 1 processing, with_attempt digest env m r db)
unfolding record_attempt insert_attempt
record_attempt-new digest env m r db n =
    rw (n.no_stream, record_attempt, n.no_offset, insert_attempt, n.no_number) refl

-- A message for this auction that carries the decision.
pub record Carries (m : Message) (r : EngineResult) : Type 0 where
  pub payload : m.payload ≡ some r
  pub auction : r.auction_id ≡ m.auction_id
  pub decided : r.code ≢ fat_finger_confirm_required

pub settle_payload-attempted :
    (digest : EngineResult → ℕ) (env : Env) (m : Message) (r : EngineResult) (db : Db)
    → Carries m r
    → settle_payload digest env m db
      ≡ settle_attempted env m r
          (record_attempt digest env m r db).0
          (record_attempt digest env m r db).1
unfolding settle_payload
settle_payload-attempted digest env m r db v = ground (arith, v.payload, v.auction)

-- A new message with the next decision of its epoch is settled in one call, and writes the rows of its
-- decision.
pub settle_payload-Wrote :
    (digest : EngineResult → ℕ) (env : Env) (m : Message) (r : EngineResult) (db : Db)
    → Carries m r
    → IsNew m r db
    → Fits r db
    → (db1 : Db) × (settle_payload digest env m db ≡ (done, committed env m db1))
      × Wrote r
          (row_of r.code r db.auction)
          (is_accepted r.code)
          (code_of r.code r)
          (with_attempt digest env m r db)
          db1
unfolding settle_attempted
settle_payload-Wrote digest env m r db v n f =
    let dba = with_attempt digest env m r db in
    let fits : Fits r dba = record {
      fence = f.fence;
      no_bid = f.no_bid;
      idem_fits = f.idem_fits;
      no_outbox = f.no_outbox;
    } in
    let (db1, e, w) = settle_result-Wrote env m r dba r.code v.decided fits in
    (
      db1,
      settle_payload-attempted digest env m r db v
          ∙ rw (record_attempt-new digest env m r db n)
              (settle_locked-next env m r 1 dba f.fence ∙ e),
      w,
    )
