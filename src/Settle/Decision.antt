-- ===== src/Settle/Decision.antt =====
-- The decisions of the Redis scripts settled in PostgreSQL, redisengine/engine.go: the row of `auctions`
-- stays a mirror of the state hash.
use live_auction.Common.{
  ℕ, suc, ◌+◌, ◌≡◌, ◌⊎◌, inl, inr, refl, sym, subst, ap, ◌∙◌, Bool, true, false, none, some, arith,
}
use live_auction.Engine.Data.{
  ResultCode, engine_accepted, engine_sold, StateHash, EngineResult, Keyspace, Call, Reply, ok,
}
use live_auction.Engine.State.{Live, read_hash}
use live_auction.Engine.Store.{outcome, accepted_result, rejected_result}
use live_auction.Engine.Effect.{IsQuiet, Effect, quiet, refused, taken}
use live_auction.Engine.Run.{Op, call_of, step, step-Effect}
use live_auction.Settle.Data.{Auction, EventType, Db, Message, Env}
use live_auction.Settle.Rows.{has_outbox}
use live_auction.Settle.Apply.{accepted_row, passes_fence}
use live_auction.Settle.Worker.{done, settle_payload}
use live_auction.Settle.Written.{IdemFits, Fits}
use live_auction.Settle.Projection.{Mirrors, accepted_row-Mirrors, rejected_row-Mirrors}
use live_auction.Settle.Next.{
  row_of, committed, committed-auction, IsNew, Carries, settle_payload-Wrote,
}

-- A decision with its new hash, made by a call on `s`: it has the call's client bid id and the next
-- number, and settling it on a mirror of the old hash gives a mirror of the new one.
pub record Follows (c : Call) (s : Live) (h' : StateHash) (r : EngineResult) : Type 0 where
  pub client : r.client_bid_id ≡ c.client_bid_id
  pub next : r.engine_seq ≡ suc s.engine_seq
  pub epoch : r.engine_epoch ≡ s.engine_epoch
  pub mirrors : (row : Auction) → Mirrors s row → Mirrors (read_hash h') (row_of r.code r row)

pub outcome_code :
    (c : Call) (s : Live) (extends : Bool)
    → ((outcome c s extends).code ≡ engine_sold) ⊎ ((outcome c s extends).code ≡ engine_accepted)
unfolding outcome
outcome_code c s extends = ground arith

row_of-accepted :
    (code : ResultCode) (r : EngineResult) (row : Auction)
    → (code ≡ engine_sold) ⊎ (code ≡ engine_accepted)
    → row_of code r row ≡ accepted_row r row
row_of-accepted code r row (inl e) = ap (λ c. row_of c r row) e
row_of-accepted code r row (inr e) = ap (λ c. row_of c r row) e

ok_injective : (x y : EngineResult) (r : Reply) → r ≡ ok x → r ≡ ok y → x ≡ y
ok_injective x y r e f = cc

pub Effect-Follows :
    (c : Call) (ks : Keyspace) (h : StateHash) (m : Message) (r : EngineResult) (reply : Reply)
    (ks' : Keyspace)
    → Effect c ks h reply ks'
    → reply ≡ ok r
    → Carries m r
    → (h' : StateHash) × (ks'.state ≡ some h') × Follows c (read_hash h) h' r
Effect-Follows c ks h m r reply ks' (quiet s l p k q) e v =
    absurd (v.decided (subst (IsQuiet c ks') e q).0)
Effect-Follows c ks h m r reply ks' (refused reason d) e v = (
  _,
  d.stored,
  subst (Follows c (read_hash h) _)
      (ok_injective (rejected_result c (read_hash h) reason) r reply d.answered e)
      (unfold rejected_result in
        record {
          client = refl;
          next = refl;
          epoch = refl;
          mirrors = λ row w. rejected_row-Mirrors c h reason row w;
        }),
)
Effect-Follows c ks h m r reply ks' (taken ext src basis can d) e v =
    let o = outcome c (read_hash h) ext in
    (
      _,
      d.stored,
      subst (Follows c (read_hash h) _)
          (ok_injective (accepted_result c (read_hash h) o src basis) r reply d.answered e)
          (unfold accepted_result in
            record {
              client = refl;
              next = refl;
              epoch = refl;
              mirrors = λ row w.
                  rw (row_of-accepted o.code _ row (outcome_code c (read_hash h) ext))
                    (accepted_row-Mirrors c h ext src basis row w);
            }),
    )

-- The tables know neither the decision's client bid id nor the next public number.
pub record IsClear (r : EngineResult) (db : Db) : Type 0 where
  pub no_bid : db.bids r.user_id r.client_bid_id ≡ none
  pub idem_fits : IdemFits r (db.idem r.user_id r.client_bid_id)
  pub no_outbox : (t : EventType) → has_outbox (db.auction.seq + 1) t db.outbox ≡ false

pub next-fence :
    (s : Live) (row : Auction) (r : EngineResult)
    → Mirrors s row
    → r.engine_seq ≡ suc s.engine_seq
    → r.engine_epoch ≡ s.engine_epoch
    → passes_fence r row ≡ true
next-fence s row r v e f = ground (arith, v.engine_seq, v.engine_epoch, e, f)

-- Where the row mirrors the hash, a bid or confirmation that is decided leaves a message that
-- settles at the first attempt, and the row then mirrors the hash that the decision left: status,
-- price, winner, end, counts, number and epoch. The message and the decision's keys are new to the tables.
pub settle_payload-Mirrors :
    (digest : EngineResult → ℕ) (env : Env) (m : Message) (o : Op) (h : StateHash) (ks : Keyspace)
    (r : EngineResult) (db : Db)
    → ks.state ≡ some h
    → Mirrors (read_hash h) db.auction
    → (step o ks).0 ≡ ok r
    → Carries m r
    → IsNew m r db
    → IsClear r db
    → (h' : StateHash) × ((step o ks).1.state ≡ some h')
      × (db' : Db) × (settle_payload digest env m db ≡ (done, db'))
      × Mirrors (read_hash h') db'.auction
settle_payload-Mirrors digest env m o h ks r db e v answered carries new clear =
    let (h', e', follows) =
      Effect-Follows (call_of o) ks h m r (step o ks).0 (step o ks).1 (step-Effect o h ks e)
        answered carries in
    let fits : Fits r db = record {
      fence = next-fence (read_hash h) db.auction r v follows.next follows.epoch;
      no_bid = clear.no_bid;
      idem_fits = clear.idem_fits;
      no_outbox = clear.no_outbox;
    } in
    let (db1, settles, w) = settle_payload-Wrote digest env m r db carries new fits in
    (
      h',
      e',
      committed env m db1,
      settles,
      subst (Mirrors (read_hash h')) (sym (committed-auction env m db1 ∙ w.row_written))
          (follows.mirrors db.auction v),
    )
