-- ===== src/Settle/Once.antt =====
-- Redelivery and reordering of ledger messages, `settlePayload` of redisengine/engine.go.
use live_auction.Common.{ℕ, ◌+◌, ◌<◌, ◌≡◌, refl, ap, ◌∙◌, true, some, List, ◌∷◌, arith}
use live_auction.Engine.Data.{EngineResult}
use live_auction.Settle.Data.{processing, settled, Attempt, Db, Message, Env, transient}
use live_auction.Settle.Rows.{upsert_engine_checkpoint}
use live_auction.Settle.Attempt.{
  find, for_stream, change, is_finished, again, attempted, record_attempt,
}
use live_auction.Settle.Worker.{
  Settled, done, refused_settle, settle_locked, settle_attempted, settle_payload,
}
use live_auction.Settle.Written.{Fits}
use live_auction.Settle.Next.{
  committed, IsNew, Carries, first_attempt, record_attempt-new, settle_payload-attempted,
  settle_payload-Wrote,
}

-- Only the table of attempts differs.
abbrev pub with_attempts : Db → List Attempt → Db
with_attempts db rows = record db { attempts = rows }

record_attempt-again :
    (digest : EngineResult → ℕ) (env : Env) (m : Message) (r : EngineResult) (db : Db) (a : Attempt)
    → find (for_stream m.id) db.attempts ≡ some a
    → is_finished a.status ≡ true
    → a.payload_sha256 ≡ digest r
    → record_attempt digest env m r db
      ≡ (attempted a.attempts a.status, with_attempts db (change m.id (again env) db.attempts))
unfolding record_attempt
record_attempt-again digest env m r db a e f d = rw (e, record_attempt) (ground (arith, f, d))

-- A message that a finished attempt has, with the same payload, changes no row but its attempt's.
settle_payload-finished :
    (digest : EngineResult → ℕ) (env : Env) (m : Message) (r : EngineResult) (db : Db) (a : Attempt)
    → Carries m r
    → find (for_stream m.id) db.attempts ≡ some a
    → is_finished a.status ≡ true
    → a.payload_sha256 ≡ digest r
    → settle_payload digest env m db
      ≡ (done, with_attempts db (change m.id (again env) db.attempts))
unfolding settle_attempted
settle_payload-finished digest env m r db a v e f d =
    settle_payload-attempted digest env m r db v
    ∙ rw (record_attempt-again digest env m r db a e f d) (ground (arith, f))

committed-attempts :
    (env : Env) (m : Message) (db : Db)
    → (committed env m db).attempts
      ≡ change m.id (λ a. record a { status = settled; updated_at_ms = env.now_ms }) db.attempts
unfolding upsert_engine_checkpoint
committed-attempts env m db = ground arith

-- A decision that was settled and is delivered once more is answered as done and changes no row but its
-- own attempt's, whatever the clock.
pub settle_payload-twice :
    (digest : EngineResult → ℕ) (env env' : Env) (m : Message) (r : EngineResult) (db : Db)
    → Carries m r
    → IsNew m r db
    → Fits r db
    → (settle_payload digest env m db).0 ≡ done
      × (settle_payload digest env' m (settle_payload digest env m db).1 ≡ (
        done,
        with_attempts
            (settle_payload digest env m db).1
            (change m.id (again env') (settle_payload digest env m db).1.attempts),
      ))
settle_payload-twice digest env env' m r db v n f =
    let (db1, e, w) = settle_payload-Wrote digest env m r db v n f in
    let there : (committed env m db1).attempts
        ≡ record (first_attempt digest env m r) { status = settled; updated_at_ms = env.now_ms }
          ∷ change m.id (λ a. record a { status = settled; updated_at_ms = env.now_ms })
              db.attempts =
      committed-attempts env m db1 ∙ rw w.attempts_kept (ground arith) in
    (
      ap (λ (p : Settled × Db). p.0) e,
      rw e (
          settle_payload-finished digest env' m r (committed env m db1)
            (record (first_attempt digest env m r) { status = settled; updated_at_ms = env.now_ms })
            v (rw there (ground arith)) refl refl),
    )

-- A new message whose decision is not the next one, but a later one of the same epoch, is left for
-- later: nothing changes but the table of attempts, which has its first attempt.
settle_payload-ahead :
    (digest : EngineResult → ℕ) (env : Env) (m : Message) (r : EngineResult) (db : Db)
    → Carries m r
    → IsNew m r db
    → r.engine_epoch ≡ db.auction.engine_epoch
    → db.auction.engine_seq + 1 < r.engine_seq
    → settle_payload digest env m db ≡ (
      refused_settle transient,
      with_attempts db (
          change m.id
            (λ a. record a { status = processing; updated_at_ms = env.now_ms })
            (first_attempt digest env m r ∷ db.attempts)),
    )
unfolding settle_attempted settle_locked
settle_payload-ahead digest env m r db v n e gap =
    settle_payload-attempted digest env m r db v
    ∙ rw (record_attempt-new digest env m r db n) (ground (arith, e, gap))
