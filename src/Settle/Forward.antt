-- ===== src/Settle/Forward.antt =====
-- What no call of `settlePayload` of redisengine/engine.go does to the row of `auctions`: it does not go
-- back, and does not leave its epoch.
pub mod Call
use live_auction.Common.{
  ℕ, suc, ◌+◌, ◌≤◌, ◌≡◌, ◌⊎◌, inl, inr, refl, sym, subst, Option-cases, Bool-cases, ◌∙◌, Bool, true,
  false, Option, none, some, ◌==◌, if◌then◌else◌, arith,
}
use live_auction.Engine.Data.{
  engine_accepted, engine_rejected, engine_sold, fat_finger_confirm_required, ResultCode,
  RejectReason, EngineResult,
}
use live_auction.Settle.Data.{
  event_bid_rejected, bid_rejected, Auction, Db, Message, Env, EventType, Payload, BidResult,
  BidResponse,
}
use live_auction.Settle.Rows.{
  should_broadcast_reject, insert_bid, complete_idem, append_event, create_order, push_end_job,
  pause_tx, upsert_engine_checkpoint,
}
use live_auction.Settle.Attempt.{
  Recorded, attempted, not_attempted, mark_identity_conflict, claim_stale, existing_attempt,
  insert_attempt, record_attempt,
}
use live_auction.Settle.Apply.{
  Applied, applied, conflicted, broken, uncommitted, accepted_row, rejected_row, passes_fence,
  order_or_job, publish, settle_accepted, settle_rejected, write_rejected, settled_response,
  rejected_payload, accepted_payload, accepted_result_code, event_of,
}
use live_auction.Settle.Next.{committed-auction}
use live_auction.Settle.Worker.{
  finish, settle_result, settle_locked, settle_attempted, settle_payload,
}

-- The row is the old one up to a pause, or the next decision is in it.
pub record Forward (row row' : Auction) : Type 0 where
  pub epoch : row'.engine_epoch ≡ row.engine_epoch
  pub number : (row'.engine_seq ≡ row.engine_seq) ⊎ (row'.engine_seq ≡ suc row.engine_seq)
  pub public_number : (row'.seq ≡ row.seq) ⊎ (row'.seq ≡ row.seq + 1)
  pub counted : row.accepted_bid_count ≤ row'.accepted_bid_count

Forward-refl : (row : Auction) → Forward row row
Forward-refl row = record {
  epoch = refl;
  number = inl refl;
  public_number = inl refl;
  counted = omega arith;
}

abbrev ForwardApplied : Auction → Applied → Type 0
ForwardApplied row (applied db) = Forward row db.auction
ForwardApplied row (conflicted db) = Forward row db.auction
ForwardApplied row (broken _) = Unit
ForwardApplied row uncommitted = Unit

accepted_row-Forward :
    (r : EngineResult) (row : Auction)
    → passes_fence r row ≡ true
    → Forward row (accepted_row r row)
unfolding accepted_row
accepted_row-Forward r row f = ground (arith, f)

rejected_row-Forward :
    (r : EngineResult) (row : Auction)
    → passes_fence r row ≡ true
    → Forward row (rejected_row r row)
unfolding rejected_row
rejected_row-Forward r row f = ground (arith, f)

insert_bid-auction :
    (r : EngineResult) (seq : Option ℕ) (accepted : Bool) (reason : Option RejectReason)
    (json : BidResponse) (db : Db)
    → (insert_bid r seq accepted reason json db).1.auction ≡ db.auction
unfolding insert_bid
insert_bid-auction r seq accepted reason json db = ground arith

order_or_job-auction :
    (env : Env) (r : EngineResult) (payload : Payload) (db : Db)
    → (order_or_job env r payload db).1.auction ≡ db.auction
unfolding order_or_job create_order push_end_job
order_or_job-auction env r payload db = ground arith

complete_idem-auction :
    (r : EngineResult) (code : BidResult) (json : BidResponse) (db : Db)
    → (complete_idem r code json db).1.auction ≡ db.auction
unfolding complete_idem
complete_idem-auction r code json db = ground arith

-- The end of a settlement that leaves the row as it found it.
abbrev KeepsRow : Auction → Applied → Type 0
KeepsRow row (applied db) = db.auction ≡ row
KeepsRow row (conflicted db) = db.auction ≡ row
KeepsRow row (broken _) = Unit
KeepsRow row uncommitted = Unit

-- The last statement of both settlements.
abbrev ending : EngineResult → BidResult → BidResponse → Db → Applied
ending r code json db =
    if (complete_idem r code json db).0
    then applied (complete_idem r code json db).1
    else conflicted (complete_idem r code json db).1

end-KeepsRow :
    (r : EngineResult) (code : BidResult) (json : BidResponse) (db : Db)
    → KeepsRow db.auction (ending r code json db)
end-KeepsRow r code json db = ground (arith, complete_idem-auction r code json db)

append_event-auction :
    (r : EngineResult) (seq : ℕ) (t : EventType) (payload : Payload) (db published : Db)
    → append_event r seq t payload db ≡ some published
    → published.auction ≡ db.auction
unfolding append_event
append_event-auction r seq t payload db published e = ground (arith, e)

publish-KeepsRow :
    (r : EngineResult) (seq : ℕ) (t : EventType) (payload : Payload) (code : BidResult)
    (json : BidResponse) (db : Db)
    → KeepsRow db.auction (publish r seq t payload code json db)
unfolding publish
publish-KeepsRow r seq t payload code json db =
    elim (Option-cases (append_event r seq t payload db)) [
      | inl e ↦ rw (e, publish) tt
      | inr (published, e) ↦
          rw (e, publish)
            (subst (λ row. KeepsRow row (ending r code json published))
              (append_event-auction r seq t payload db published e)
              (end-KeepsRow r code json published))
    ]

KeepsRow-Forward :
    (row row' : Auction) (a : Applied) → Forward row row' → KeepsRow row' a → ForwardApplied row a
KeepsRow-Forward row row' (applied db) f k = subst (Forward row) (sym k) f
KeepsRow-Forward row row' (conflicted db) f k = subst (Forward row) (sym k) f
KeepsRow-Forward row row' (broken _) f k = tt
KeepsRow-Forward row row' uncommitted f k = tt

write_rejected-KeepsRow :
    (broadcast : Bool) (r : EngineResult) (row : Auction) (db : Db)
    → KeepsRow row (write_rejected broadcast r row db)
unfolding write_rejected
write_rejected-KeepsRow broadcast r row db =
    let json = settled_response r bid_rejected row.seq in
    let seq = if broadcast then some row.seq else none in
    let (fresh, db1) = insert_bid r seq false r.reject_reason json (record db { auction = row }) in
    let same : db1.auction ≡ row =
      insert_bid-auction r seq false r.reject_reason json (record db { auction = row }) in
    let published =
      subst
        (λ row1.
          KeepsRow row1
            (publish r row.seq event_bid_rejected (rejected_payload r) bid_rejected json db1))
        same
        (publish-KeepsRow r row.seq event_bid_rejected (rejected_payload r) bid_rejected json
          db1) in
    let ended =
      subst (λ row1. KeepsRow row1 (ending r bid_rejected json db1)) same
        (end-KeepsRow r bid_rejected json db1) in
    ground (arith, same, published, ended)

settle_rejected-Forward :
    (r : EngineResult) (db : Db) → ForwardApplied db.auction (settle_rejected r db)
unfolding settle_rejected
settle_rejected-Forward r db = elim (Bool-cases (passes_fence r db.auction)) [
  | inl passes ↦
      rw (passes, settle_rejected)
        (KeepsRow-Forward db.auction (rejected_row r db.auction)
          (write_rejected (should_broadcast_reject r.reject_reason) r (rejected_row r db.auction)
            db)
          (rejected_row-Forward r db.auction passes)
          (write_rejected-KeepsRow (should_broadcast_reject r.reject_reason) r
            (rejected_row r db.auction) db))
  | inr fails ↦ rw (fails, settle_rejected) tt
]

settle_accepted-KeepsRow :
    (env : Env) (r : EngineResult) (db : Db)
    → passes_fence r db.auction ≡ true
    → KeepsRow (accepted_row r db.auction) (settle_accepted env r db)
unfolding settle_accepted
settle_accepted-KeepsRow env r db f =
    let row = accepted_row r db.auction in
    let json = settled_response r (accepted_result_code r) row.seq in
    let (fresh, db1) = insert_bid r (some row.seq) true none json (record db { auction = row }) in
    let t = event_of r db.auction.end_at_ms in
    let (payload, db2) = order_or_job env r (accepted_payload r db.auction.end_at_ms) db1 in
    let same1 : db1.auction ≡ row =
      insert_bid-auction r (some row.seq) true none json (record db { auction = row }) in
    let same2 : db2.auction ≡ row =
      order_or_job-auction env r (accepted_payload r db.auction.end_at_ms) db1 ∙ same1 in
    let published =
      subst (λ row1. KeepsRow row1 (publish r row.seq t payload (accepted_result_code r) json db2))
        same2 (publish-KeepsRow r row.seq t payload (accepted_result_code r) json db2) in
    ground (arith, f, same1, published)

settle_accepted-Forward :
    (env : Env) (r : EngineResult) (db : Db) → ForwardApplied db.auction (settle_accepted env r db)
settle_accepted-Forward env r db = elim (Bool-cases (passes_fence r db.auction)) [
  | inl passes ↦
      KeepsRow-Forward db.auction (accepted_row r db.auction) (settle_accepted env r db)
        (accepted_row-Forward r db.auction passes) (settle_accepted-KeepsRow env r db passes)
  | inr fails ↦ unfold settle_accepted in rw (fails, settle_accepted) tt
]
