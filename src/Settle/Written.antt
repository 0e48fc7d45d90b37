-- ===== src/Settle/Written.antt =====
-- What a settlement of redisengine/engine.go writes where nothing is in its way: the row, the bid, the
-- idempotency record, and the event with its outbox entry.
pub mod Accepted
pub mod Rejected
use live_auction.Common.{
  ℕ, ◌+◌, ◌<◌, ◌≡◌, refl, sym, subst, ◌∙◌, ap, Bool, true, false, Option, none, some, List, ◌∷◌,
  update, update_self, is_none, is_some, inl, inr, Bool-cases, Option-cases, if◌then◌else◌, arith,
}
use live_auction.Engine.Data.{RejectReason, EngineResult}
use live_auction.Settle.Data.{
  BidResult, bid_rejected, BidResponse, Auction, Bid, IdemRow, EventType, event_bid_rejected,
  Payload, OutboxEvent, Db, Env,
}
use live_auction.Settle.Rows.{
  set, bid_row, idem_row, event_row, has_outbox, insert_bid, complete_idem, append_event,
  create_order, push_end_job, should_broadcast_reject,
}
use live_auction.Settle.Apply.{
  applied, accepted_row, rejected_row, passes_fence, accepted_result_code, event_of,
  accepted_payload, rejected_payload, order_or_job, publish, settle_accepted, settle_rejected,
  write_rejected, settled_response,
}

-- A record that does not stand in the way of this decision.
abbrev pub IdemFits : EngineResult → Option IdemRow → Type 0
IdemFits r none = Unit
IdemFits r (some old) = old.request_hash ≡ r.request_hash

-- Nothing is in the way of the decision: it is the next of its epoch, and the tables know neither its
-- client bid id nor the next public number.
pub record Fits (r : EngineResult) (db : Db) : Type 0 where
  pub fence : passes_fence r db.auction ≡ true
  pub no_bid : db.bids r.user_id r.client_bid_id ≡ none
  pub idem_fits : IdemFits r (db.idem r.user_id r.client_bid_id)
  pub no_outbox : (t : EventType) → has_outbox (db.auction.seq + 1) t db.outbox ≡ false

-- The rows after the settlement of a decision, by the new row of `auctions`; its bid and its record
-- are the only ones that change.
pub record Wrote (r : EngineResult) (row : Auction) (accepted : Bool) (code : BidResult)
    (db db' : Db) : Type 0 where
  pub row_written : db'.auction ≡ row
  pub bid_written :
      (b : Bid) × (db'.bids ≡ set db.bids r.user_id r.client_bid_id (some b))
      × (b.accepted ≡ accepted)
      × (b.amount_cents ≡ r.amount_cents)
      × (b.engine_seq ≡ r.engine_seq)
      × (b.request_hash ≡ r.request_hash)
  pub idem_written :
      (i : IdemRow) × (db'.idem ≡ set db.idem r.user_id r.client_bid_id (some i))
      × (i.request_hash ≡ r.request_hash)
      × (i.completed ≡ true)
      × (i.result_code ≡ code)
  pub no_later_outbox :
      (seq : ℕ) (t : EventType)
      → row.seq < seq
      → has_outbox seq t db.outbox ≡ false
      → has_outbox seq t db'.outbox ≡ false
  pub attempts_kept : db'.attempts ≡ db.attempts
  pub checkpoint_kept : db'.checkpoint ≡ db.checkpoint

-- A new event in the outbox has the public number of the row.
pub record Published (seq : ℕ) (db db' : Db) : Type 0 where
  pub outboxed : (o : OutboxEvent) × (db'.outbox ≡ o ∷ db.outbox) × (o.seq ≡ seq)
  pub logged : is_some (db'.events seq) ≡ true

complete_idem_fits :
    (r : EngineResult) (code : BidResult) (json : BidResponse) (db : Db)
    → IdemFits r (db.idem r.user_id r.client_bid_id)
    → complete_idem r code json db ≡ (
      true,
      record db { idem = set db.idem r.user_id r.client_bid_id (some (idem_row r code json)) },
    )
unfolding complete_idem
complete_idem_fits r code json db f = elim (Option-cases (db.idem r.user_id r.client_bid_id)) [
  | inl e ↦ rw (e, complete_idem) refl
  | inr (old, e) ↦
      let same : old.request_hash ≡ r.request_hash = rw e at f in ground (arith, e, same)
]

insert_bid_fresh :
    (r : EngineResult) (seq : Option ℕ) (accepted : Bool) (reason : Option RejectReason)
    (json : BidResponse) (db : Db)
    → db.bids r.user_id r.client_bid_id ≡ none
    → insert_bid r seq accepted reason json db ≡ (
      true,
      record db {
        bids = set db.bids r.user_id r.client_bid_id (some (bid_row r seq accepted reason json));
      },
    )
unfolding insert_bid
insert_bid_fresh r seq accepted reason json db e = rw (e, insert_bid) refl

-- The rows that an order, a job and an event leave alone.
record Keeps (db db' : Db) : Type 0 where
  row : db'.auction ≡ db.auction
  bids : db'.bids ≡ db.bids
  idem : db'.idem ≡ db.idem
  outbox : db'.outbox ≡ db.outbox
  attempts : db'.attempts ≡ db.attempts
  checkpoint : db'.checkpoint ≡ db.checkpoint

order_or_job-Keeps :
    (env : Env) (r : EngineResult) (payload : Payload) (db : Db)
    → Keeps db (order_or_job env r payload db).1
unfolding order_or_job create_order push_end_job
order_or_job-Keeps env r payload db = ground arith

-- The rows after an event and the idempotency record.
abbrev with_event : EngineResult → ℕ → EventType → Payload → BidResult → BidResponse → Db → Db
with_event r seq t payload code json db =
    let versioned = record payload { state_version = seq } in
    record db {
      events =
          if is_none (db.events seq)
          then update db.events seq (some (event_row r t versioned))
          else db.events;
      outbox = record { seq = seq; event_type = t; payload = versioned } ∷ db.outbox;
      idem = set db.idem r.user_id r.client_bid_id (some (idem_row r code json));
    }

publish_fits :
    (r : EngineResult) (seq : ℕ) (t : EventType) (payload : Payload) (code : BidResult)
    (json : BidResponse) (db : Db)
    → has_outbox seq t db.outbox ≡ false
    → IdemFits r (db.idem r.user_id r.client_bid_id)
    → publish r seq t payload code json db ≡ applied (with_event r seq t payload code json db)
unfolding publish append_event
publish_fits r seq t payload code json db out f =
    rw
      (
        out,
        append_event,
        publish,
        complete_idem_fits r code json
            (record (with_event r seq t payload code json db) { idem = db.idem }) f,
      )
      refl

-- The rows once the row of `auctions` and the bid are written.
abbrev with_bid :
    EngineResult → Auction → Option ℕ → Bool → Option RejectReason → BidResponse → Db → Db
with_bid r row seq accepted reason json db = record db {
  auction = row;
  bids = set db.bids r.user_id r.client_bid_id (some (bid_row r seq accepted reason json));
}

-- An entry of an earlier number does not hide a later one.
has_outbox-later :
    (seq earlier : ℕ) (t t' : EventType) (payload : Payload) (os : List OutboxEvent)
    → earlier < seq
    → has_outbox seq t os ≡ false
    → has_outbox seq t (record { seq = earlier; event_type = t'; payload = payload } ∷ os) ≡ false
has_outbox-later seq earlier t t' payload os lt out = ground (arith, out)

publish-Wrote :
    (r : EngineResult) (row : Auction) (seq : Option ℕ) (accepted : Bool)
    (reason : Option RejectReason) (code : BidResult) (json : BidResponse) (t : EventType)
    (payload : Payload) (db db2 : Db)
    → Keeps (with_bid r row seq accepted reason json db) db2
    → Wrote r row accepted code db (with_event r row.seq t payload code json db2)
publish-Wrote r row seq accepted reason code json t payload db db2 k = record {
  row_written = k.row;
  bid_written = (bid_row r seq accepted reason json, k.bids, refl, refl, refl, refl);
  idem_written = (
    idem_row r code json,
    ap
        (λ (f : ℕ → ℕ → Option IdemRow).
          set f r.user_id r.client_bid_id (some (idem_row r code json)))
        k.idem,
    refl,
    refl,
    refl,
  );
  no_later_outbox = λ seq' t' later out.
      has_outbox-later seq' row.seq t' t (record payload { state_version = row.seq }) db2.outbox
        later (rw k.outbox out);
  attempts_kept = k.attempts;
  checkpoint_kept = k.checkpoint;
}

with_event-Published :
    (r : EngineResult) (seq : ℕ) (t : EventType) (payload : Payload) (code : BidResult)
    (json : BidResponse) (db db2 : Db)
    → db2.outbox ≡ db.outbox
    → Published seq db (with_event r seq t payload code json db2)
with_event-Published r seq t payload code json db db2 k = record {
  outboxed = (
    _,
    ap
        (λ (os : List OutboxEvent).
          record { seq = seq; event_type = t; payload = record payload { state_version = seq } }
          ∷ os)
        k,
    refl,
  );
  logged = ground arith;
}
