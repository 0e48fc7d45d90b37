-- ===== src/Settle/Log/Replayed.antt =====
-- The whole history of redisengine/engine.go: the decisions of any run, settled in their order.
use live_auction.Common.{
  ℕ, suc, ◌+◌, ◌≤◌, ◌<◌, ◌≡◌, ◌≢◌, ◌⊎◌, refl, sym, subst, ap, ◌∙◌, true, false, some, List, [], ◌∷◌,
  ◌==◌, inl, inr, Bool-cases, arith,
}
use live_auction.Engine.Data.{
  ResultCode, engine_rejected, engine_accepted, engine_sold, fat_finger_confirm_required, StateHash,
  EngineResult, Keyspace, Call, Reply, replay, ok, error,
}
use live_auction.Engine.State.{read_hash}
use live_auction.Engine.Confirm.{is_held}
use live_auction.Engine.Store.{idem_record, rejected_result, accepted_result}
use live_auction.Engine.Effect.{Effect, quiet, refused, taken}
use live_auction.Engine.Run.{Op, call_of, step, run, step-Effect}
use live_auction.Engine.Run.Replay.{Effect-stored}
use live_auction.Engine.Run.Decide.{IsDone, step-IsStill, step-IsDone}
use live_auction.Settle.Data.{settled, Auction, Db, Message, Env}
use live_auction.Settle.Rows.{upsert_engine_checkpoint}
use live_auction.Settle.Attempt.{mark}
use live_auction.Settle.Apply.{accepted_row, rejected_row}
use live_auction.Settle.Worker.{Settled, settle_payload}
use live_auction.Settle.Written.{IdemFits, Fits, Wrote}
use live_auction.Settle.Projection.{Mirrors}
use live_auction.Settle.Next.{
  row_of, committed, committed-auction, Carries, first_attempt, with_attempt, is_accepted, code_of,
  settle_payload-Wrote,
}
use live_auction.Settle.Decision.{Follows, Effect-Follows, next-fence, outcome_code}
use live_auction.Settle.Log.{add_decided, decisions, message_of, settle_all}
use live_auction.Settle.Log.World.{
  World, change-AttemptUnder, first_attempt-AttemptUnder, next-IsNew, undone-none, set-is_some,
}

not_held : (code : ResultCode) → is_held code ≡ false → code ≢ fat_finger_confirm_required
not_held code n e = ground (arith, n, e)

row_of_numbers :
    (code : ResultCode) (r : EngineResult) (row : Auction)
    → ((row_of code r row).engine_seq ≡ r.engine_seq) × (row.seq ≤ (row_of code r row).seq)
unfolding accepted_row rejected_row
row_of_numbers engine_rejected r row = (refl, ground arith)
row_of_numbers engine_accepted r row = (refl, omega arith)
row_of_numbers engine_sold r row = (refl, omega arith)
row_of_numbers fat_finger_confirm_required r row = (refl, omega arith)

committed-tables :
    (env : Env) (m : Message) (db : Db)
    → ((committed env m db).bids ≡ db.bids)
      × ((committed env m db).idem ≡ db.idem)
      × ((committed env m db).outbox ≡ db.outbox)
      × ((committed env m db).attempts ≡ (mark env m.id settled db).attempts)
unfolding upsert_engine_checkpoint
committed-tables env m db = (ground arith, ground arith, ground arith, ground arith)

idem_record-IsDone :
    (c : Call) (r : EngineResult) → is_held r.code ≡ false → IsDone (idem_record c r)
unfolding idem_record
idem_record-IsDone c r n = record { hashed = (c.request_hash, refl); decided = (r, refl, n) }

-- What was done before a decision, or is decided by it, is done after it.
decided-IsDone :
    (o : Op) (h : StateHash) (ks : Keyspace) (r : EngineResult) (u j : ℕ)
    → ks.state ≡ some h
    → (step o ks).0 ≡ ok r
    → is_held r.code ≡ false
    → (j ≢ (call_of o).client_bid_id → IsDone (ks.idem j))
    → IsDone ((step o ks).1.idem j)
decided-IsDone o h ks r u j e answered n before =
    elim (Bool-cases (j == (call_of o).client_bid_id)) [
      | inl own ↦
          let at : j ≡ (call_of o).client_bid_id = ground (arith, own) in
          let stored =
            Effect-stored (call_of o) ks h r (step o ks).0 (step o ks).1 (step-Effect o h ks e)
              answered in
          subst (λ i. IsDone ((step o ks).1.idem i)) (sym at)
            (subst IsDone (sym stored) (idem_record-IsDone (call_of o) r n))
      | inr other ↦ step-IsDone o h ks j e (before (λ at. ground (arith, other, at)))
    ]

-- Nothing is in the way of a decision that a call has just made.
decided-Fits :
    (o : Op) (h h' : StateHash) (ks : Keyspace) (r : EngineResult) (db : Db)
    → World ks h db
    → (step o ks).0 ≡ ok r
    → Follows (call_of o) (read_hash h) h' r
    → Fits r db
decided-Fits o h h' ks r db w answered follows = record {
  fence = next-fence (read_hash h) db.auction r w.mirrors follows.next follows.epoch;
  no_bid =
      undone-none (db.bids r.user_id r.client_bid_id)
        (λ e. undone (w.bids r.user_id r.client_bid_id e));
  idem_fits =
      subst (IdemFits r)
        (sym (
          undone-none (db.idem r.user_id r.client_bid_id)
            (λ e. undone (w.idem r.user_id r.client_bid_id e))))
        tt;
  no_outbox = λ t. w.outbox (db.auction.seq + 1) t (omega arith);
}
  where
    undone : IsDone (ks.idem r.client_bid_id) → ⊥
    undone d =
        (step-IsStill o ks (subst (λ k. IsDone (ks.idem k)) follows.client d)).no_decision r
          answered

-- The tables that a decision's settlement has written are in the invariant with the hash that it left.
written-World :
    (digest : EngineResult → ℕ) (env : Env) (o : Op) (h h' : StateHash) (ks : Keyspace)
    (r : EngineResult) (db db1 : Db)
    → World ks h db
    → (step o ks).0 ≡ ok r
    → is_held r.code ≡ false
    → (step o ks).1.state ≡ some h'
    → Follows (call_of o) (read_hash h) h' r
    → Wrote r
        (row_of r.code r db.auction)
        (is_accepted r.code)
        (code_of r.code r)
        (with_attempt digest env (message_of r) r db)
        db1
    → World (step o ks).1 h' (committed env (message_of r) db1)
written-World digest env o h h' ks r db db1 w answered n e' follows wrote = record {
  here = e';
  mirrors = mirrors;
  bids = λ u j e. decided-IsDone o h ks r u j w.here answered n (λ apart. w.bids u j (
      set-is_some db.bids r.user_id r.client_bid_id _ u j (rw (tables.0, wrote.bid_written.1) at e)
        (λ at. apart (at ∙ follows.client))));
  idem = λ u j e. decided-IsDone o h ks r u j w.here answered n (λ apart. w.idem u j (
      set-is_some db.idem r.user_id r.client_bid_id _ u j (rw (tables.1, wrote.idem_written.1) at e)
        (λ at. apart (at ∙ follows.client))));
  outbox = λ seq t later.
      let later' : (row_of r.code r db.auction).seq < seq = rw row at later in
      rw tables.2 (
        wrote.no_later_outbox seq t later'
          (w.outbox seq t (omega (arith, later', (row_of_numbers r.code r db.auction).1))));
  attempts =
      rw (number, tables.3, wrote.attempts_kept)
        (change-AttemptUnder (suc (read_hash h).engine_seq) r.engine_seq env.now_ms settled
          (first_attempt digest env (message_of r) r ∷ db.attempts)
          (first_attempt-AttemptUnder digest env r (read_hash h).engine_seq db.attempts follows.next
            w.attempts));
}
  where
    tables :
        ((committed env (message_of r) db1).bids ≡ db1.bids)
        × ((committed env (message_of r) db1).idem ≡ db1.idem)
        × ((committed env (message_of r) db1).outbox ≡ db1.outbox)
        × ((committed env (message_of r) db1).attempts
            ≡ (mark env r.engine_seq settled db1).attempts)
    tables = committed-tables env (message_of r) db1

    row : (committed env (message_of r) db1).auction ≡ row_of r.code r db.auction
    row = committed-auction env (message_of r) db1 ∙ wrote.row_written

    mirrors : Mirrors (read_hash h') (committed env (message_of r) db1).auction
    mirrors = subst (Mirrors (read_hash h')) (sym row) (follows.mirrors db.auction w.mirrors)

    number : (read_hash h').engine_seq ≡ suc (read_hash h).engine_seq
    number =
        sym mirrors.engine_seq
        ∙ ap (λ (a : Auction). a.engine_seq) row
        ∙ (row_of_numbers r.code r db.auction).0
        ∙ follows.next

-- A decision that is settled keeps the invariant.
decided-World :
    (digest : EngineResult → ℕ) (env : Env) (o : Op) (h : StateHash) (ks : Keyspace)
    (r : EngineResult) (db : Db)
    → World ks h db
    → (step o ks).0 ≡ ok r
    → is_held r.code ≡ false
    → (h' : StateHash) × World (step o ks).1 h' (settle_payload digest env (message_of r) db).1
decided-World digest env o h ks r db w answered n =
    let carries : Carries (message_of r) r = record {
      payload = refl;
      auction = refl;
      decided = not_held r.code n;
    } in
    let (h', e', follows) =
      Effect-Follows (call_of o) ks h (message_of r) r (step o ks).0 (step o ks).1
        (step-Effect o h ks w.here) answered carries in
    let (db1, settles, wrote) =
      settle_payload-Wrote digest env (message_of r) r db carries
        (next-IsNew r (read_hash h).engine_seq db follows.next w.attempts)
        (decided-Fits o h h' ks r db w answered follows) in
    (
      h',
      subst (λ (p : Settled × Db). World (step o ks).1 h' p.1) (sym settles)
          (written-World digest env o h h' ks r db db1 w answered n e' follows wrote),
    )

-- A call that decides nothing keeps the invariant.
still-World :
    (o : Op) (h : StateHash) (ks : Keyspace) (db : Db)
    → World ks h db
    → ((r : EngineResult) → (step o ks).0 ≡ ok r → is_held r.code ≡ true)
    → World (step o ks).1 h db
still-World o h ks db w n = go (step-Effect o h ks w.here)
  where
    kept : (step o ks).1.state ≡ some h → World (step o ks).1 h db
    kept e = record {
      here = e;
      mirrors = w.mirrors;
      bids = λ u j s. step-IsDone o h ks j w.here (w.bids u j s);
      idem = λ u j s. step-IsDone o h ks j w.here (w.idem u j s);
      outbox = w.outbox;
      attempts = w.attempts;
    }

    go : Effect (call_of o) ks h (step o ks).0 (step o ks).1 → World (step o ks).1 h db
    go (quiet s l p k q) = kept s
    go (refused reason d) = absurd (unfold rejected_result in (ground (arith, n _ d.answered)))
    go (taken ext src basis can d) = absurd (
        unfold accepted_result in
        (ground (arith, n _ d.answered, outcome_code (call_of o) (read_hash h) ext)))

-- One call, and the settlement of what it decides.
step-World :
    (digest : EngineResult → ℕ) (env : EngineResult → Env) (o : Op) (h : StateHash) (ks : Keyspace)
    (db : Db) (reply : Reply)
    → World ks h db
    → (step o ks).0 ≡ reply
    → ((r : EngineResult) × (h' : StateHash) × ((rest : List EngineResult)
          → add_decided reply rest ≡ r ∷ rest)
        × World (step o ks).1 h' (settle_payload digest (env r) (message_of r) db).1)
      ⊎ (((rest : List EngineResult) → add_decided reply rest ≡ rest) × World (step o ks).1 h db)
step-World digest env o h ks db (replay x) w e =
    inr (λ rest. refl, still-World o h ks db w (λ r f. absurd (cc)))
step-World digest env o h ks db (error c d) w e =
    inr (λ rest. refl, still-World o h ks db w (λ r f. absurd (cc)))
step-World digest env o h ks db (ok r) w e = elim (Bool-cases (is_held r.code)) [
  | inl held ↦
      inr (λ rest. rw held refl, still-World o h ks db w (λ x f. ground (arith, e, f, held)))
  | inr free ↦
      let (h', w') = decided-World digest (env r) o h ks r db w e free in
      inl (r, h', λ rest. rw free refl, w')
]

-- Whatever bids and confirmations are run, settling their decisions in order, however late, leaves tables
-- that match the run: the row mirrors the hash at its end, and the two stores are again in the invariant
-- that they started in. Messages are numbered like decisions, and no key expires.
pub settle_all-World :
    (digest : EngineResult → ℕ) (env : EngineResult → Env) (os : List Op) (h : StateHash)
    (ks : Keyspace) (db : Db)
    → World ks h db
    → (h' : StateHash) × World (run os ks) h' (settle_all digest env (decisions os ks) db)
unfolding run decisions settle_all
settle_all-World digest env [] h ks db w = (h, w)
settle_all-World digest env (o ∷ os) h ks db w =
    elim (step-World digest env o h ks db (step o ks).0 w refl) [
      | inl (r, h', adds, w') ↦ rw (adds (decisions os (step o ks).1)) (
          settle_all-World digest env os h' (step o ks).1
            (settle_payload digest (env r) (message_of r) db).1 w')
      | inr (adds, w') ↦
          rw (adds (decisions os (step o ks).1))
            (settle_all-World digest env os h (step o ks).1 db w')
    ]
