-- ===== src/Settle/Accepted.antt =====
-- The rows that the settlement of an accepted bid leaves, `settlePayload` of redisengine/engine.go.
use live_auction.Common.{
  ℕ, suc, ◌+◌, ◌≡◌, ◌⊎◌, inl, inr, refl, ap, ◌∙◌, true, some, is_some, ◌∷◌, arith,
}
use live_auction.Engine.Data.{engine_accepted, engine_sold, EngineResult}
use live_auction.Settle.Data.{Bid, IdemRow, OutboxEvent, Db, Message, Env}
use live_auction.Settle.Rows.{upsert_engine_checkpoint}
use live_auction.Settle.Apply.{accepted_row, accepted_result_code}
use live_auction.Settle.Worker.{done, finish, settle_result, settle_attempted, settle_payload}
use live_auction.Settle.Written.{Fits, Wrote, Published}
use live_auction.Settle.Written.Accepted.{settle_accepted-Wrote}
use live_auction.Settle.Next.{
  IsNew, Carries, committed, with_attempt, record_attempt-new, settle_locked-next,
  settle_payload-attempted,
}

-- The row of the auction, the bid, the idempotency record, the event and its outbox entry after an accepted bid.
pub record HasRows (r : EngineResult) (before after : Db) : Type 0 where
  pub price : after.auction.current_price_cents ≡ r.amount_cents
  pub winner : after.auction.current_winner_id ≡ some r.user_id
  pub counted : after.auction.accepted_bid_count ≡ before.auction.accepted_bid_count + 1
  pub number : after.auction.engine_seq ≡ suc before.auction.engine_seq
  pub public_number : after.auction.seq ≡ before.auction.seq + 1
  pub bid :
      (b : Bid) × (after.bids r.user_id r.client_bid_id ≡ some b)
      × (b.accepted ≡ true)
      × (b.amount_cents ≡ r.amount_cents)
      × (b.engine_seq ≡ r.engine_seq)
  pub idem :
      (i : IdemRow) × (after.idem r.user_id r.client_bid_id ≡ some i)
      × (i.completed ≡ true)
      × (i.request_hash ≡ r.request_hash)
  pub outboxed :
      (o : OutboxEvent) × (after.outbox ≡ o ∷ before.outbox) × (o.seq ≡ after.auction.seq)
  pub logged : is_some (after.events after.auction.seq) ≡ true

accepted-HasRows :
    (env : Env) (m : Message) (r : EngineResult) (db db1 : Db)
    → Fits r db
    → Wrote r (accepted_row r db.auction) true (accepted_result_code r) db db1
    → Published (db.auction.seq + 1) db db1
    → HasRows r db (committed env m db1)
unfolding accepted_row upsert_engine_checkpoint
accepted-HasRows env m r db db1 f w p =
    let (b, stored, yes_accepted, amount, number, hash) = w.bid_written in
    let (i, kept, same, completed, code) = w.idem_written in
    let (o, sent, at) = p.outboxed in
    record {
      price = ground (arith, w.row_written);
      winner = ground (arith, w.row_written);
      counted = ground (arith, w.row_written);
      number = ground (arith, w.row_written, f.fence);
      public_number = ground (arith, w.row_written);
      bid = (b, ground (arith, stored), yes_accepted, amount, number);
      idem = (i, ground (arith, kept), completed, same);
      outboxed = (o, ground (arith, sent), ground (arith, at, w.row_written));
      logged = ground (arith, p.logged, w.row_written);
    }

-- A new message with the next decision of its epoch, an accepted bid that may sell, with no bid, record or event
-- in its way, is settled in one call. The row of the auction then has its price, winner and number and counts it;
-- its bid is stored as accepted, its idempotency record is completed, and the outbox has one more entry, with the
-- next public number, under which an event is logged.
pub settle_payload-HasRows :
    (digest : EngineResult → ℕ) (env : Env) (m : Message) (r : EngineResult) (db : Db)
    → Carries m r
    → IsNew m r db
    → Fits r db
    → (r.code ≡ engine_accepted) ⊎ (r.code ≡ engine_sold)
    → ((settle_payload digest env m db).0 ≡ done) × HasRows r db (settle_payload digest env m db).1
unfolding settle_attempted settle_result finish
settle_payload-HasRows digest env m r db v n f code =
    let dba = with_attempt digest env m r db in
    let fits : Fits r dba = record {
      fence = f.fence;
      no_bid = f.no_bid;
      idem_fits = f.idem_fits;
      no_outbox = f.no_outbox;
    } in
    let (db1, e, w, p) = settle_accepted-Wrote env r dba fits in
    let result : settle_result env m r dba r.code ≡ (done, committed env m db1) = elim code [
      | inl c ↦ ap (settle_result env m r dba) c ∙ ap (finish env m dba) e
      | inr c ↦ ap (settle_result env m r dba) c ∙ ap (finish env m dba) e
    ] in
    let whole : settle_payload digest env m db ≡ (done, committed env m db1) =
      settle_payload-attempted digest env m r db v
      ∙ rw (record_attempt-new digest env m r db n)
          (settle_locked-next env m r 1 dba f.fence ∙ result) in
    let rows : HasRows r dba (committed env m db1) = accepted-HasRows env m r dba db1 fits w p in
    rw whole (
      refl,
      record {
        price = rows.price;
        winner = rows.winner;
        counted = rows.counted;
        number = rows.number;
        public_number = rows.public_number;
        bid = rows.bid;
        idem = rows.idem;
        outboxed = rows.outboxed;
        logged = rows.logged;
      },
    )
