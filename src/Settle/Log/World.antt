-- ===== src/Settle/Log/World.antt =====
-- The invariant of redisengine/engine.go's two stores between two decisions.
use live_auction.Common.{
  ℕ, suc, ◌≤◌, ◌<◌, ◌≡◌, ◌≢◌, refl, Bool, true, false, Option, none, some, List, [], ◌∷◌, ◌==◌,
  is_some, inl, inr, Bool-cases, All, arith,
}
use live_auction.Engine.Data.{StateHash, EngineResult, Keyspace}
use live_auction.Engine.State.{read_hash}
use live_auction.Engine.Run.Decide.{IsDone}
use live_auction.Settle.Data.{AttemptStatus, EventType, Attempt, Db, Env}
use live_auction.Settle.Rows.{set, has_outbox}
use live_auction.Settle.Attempt.{find, change, for_stream, same_offset, same_number}
use live_auction.Settle.Projection.{Mirrors}
use live_auction.Settle.Next.{IsNew, first_attempt}
use live_auction.Settle.Log.{message_of}

abbrev OffsetUnder : ℕ → Option ℕ → Type 0
OffsetUnder n none = Unit
OffsetUnder n (some o) = o ≤ n

-- An attempt at one of the first `n` decisions.
pub record AttemptUnder (n : ℕ) (a : Attempt) : Type 0 where
  pub stream : a.stream_id ≤ n
  pub number : a.engine_seq ≤ n
  pub offset : OffsetUnder n a.offset

-- The row mirrors the hash, and the tables hold nothing of a decision to come.
pub record World (ks : Keyspace) (h : StateHash) (db : Db) : Type 0 where
  pub here : ks.state ≡ some h
  pub mirrors : Mirrors (read_hash h) db.auction
  pub bids : (u j : ℕ) → is_some (db.bids u j) ≡ true → IsDone (ks.idem j)
  pub idem : (u j : ℕ) → is_some (db.idem u j) ≡ true → IsDone (ks.idem j)
  pub outbox : (seq : ℕ) (t : EventType) → db.auction.seq < seq → has_outbox seq t db.outbox ≡ false
  pub attempts : All (AttemptUnder (read_hash h).engine_seq) db.attempts

AttemptUnder-suc : (n : ℕ) (a : Attempt) → AttemptUnder n a → AttemptUnder (suc n) a
AttemptUnder-suc n a u = record {
  stream = omega (arith, u.stream);
  number = omega (arith, u.number);
  offset = go a.offset u.offset;
}
  where
    go : (o : Option ℕ) → OffsetUnder n o → OffsetUnder (suc n) o
    go none v = tt
    go (some o) v = omega (arith, v)

find-none :
    (p : Attempt → Bool) (rows : List Attempt) → All (λ a. p a ≡ false) rows → find p rows ≡ none
find-none p [] v = refl
find-none p (a ∷ rest) v = rw v.0 (find-none p rest v.1)

All-map :
    (P Q : Attempt → Type 0) (rows : List Attempt)
    → ((a : Attempt) → P a → Q a)
    → All P rows
    → All Q rows
All-map P Q [] f v = tt
All-map P Q (a ∷ rest) f v = (f a v.0, All-map P Q rest f v.1)

-- Marks keep the numbers of the rows.
pub change-AttemptUnder :
    (n stream time : ℕ) (status : AttemptStatus) (rows : List Attempt)
    → All (AttemptUnder n) rows
    → All
        (AttemptUnder n)
        (change stream (λ a. record a { status = status; updated_at_ms = time }) rows)
change-AttemptUnder n stream time status [] v = tt
change-AttemptUnder n stream time status (a ∷ rest) v = (
  elim (Bool-cases (a.stream_id == stream)) [
    | inl e ↦ rw e (record { stream = v.0.stream; number = v.0.number; offset = v.0.offset })
    | inr e ↦ rw e v.0
  ],
  change-AttemptUnder n stream time status rest v.1,
)

pub first_attempt-AttemptUnder :
    (digest : EngineResult → ℕ) (env : Env) (r : EngineResult) (n : ℕ) (rows : List Attempt)
    → r.engine_seq ≡ suc n
    → All (AttemptUnder n) rows
    → All (AttemptUnder (suc n)) (first_attempt digest env (message_of r) r ∷ rows)
first_attempt-AttemptUnder digest env r n rows e v = (
  record { stream = omega (arith, e); number = omega (arith, e); offset = omega (arith, e) },
  All-map (AttemptUnder n) (AttemptUnder (suc n)) rows (AttemptUnder-suc n) v,
)

-- The message of the next decision is new to the attempts at the first ones.
pub next-IsNew :
    (r : EngineResult) (n : ℕ) (db : Db)
    → r.engine_seq ≡ suc n
    → All (AttemptUnder n) db.attempts
    → IsNew (message_of r) r db
next-IsNew r n db e v = record {
  no_stream = find-none _ db.attempts (
      All-map (AttemptUnder n) (λ a. for_stream r.engine_seq a ≡ false) db.attempts
        (λ a u. ground (arith, e, u.stream)) v);
  no_offset = find-none _ db.attempts (
      All-map (AttemptUnder n) (λ a. same_offset (some r.engine_seq) a ≡ false) db.attempts
        (λ a u. go a a.offset refl u.offset) v);
  no_number = find-none _ db.attempts (
      All-map (AttemptUnder n) (λ a. same_number r a ≡ false) db.attempts
        (λ a u. ground (arith, e, u.number)) v);
}
  where
    go :
        (a : Attempt) (o : Option ℕ)
        → a.offset ≡ o
        → OffsetUnder n o
        → same_offset (some r.engine_seq) a ≡ false
    go a none f u = rw f refl
    go a (some o) f u = rw f (ground (arith, e, u))

-- A key that is not done has no row.
pub undone-none {ℓ} : {A : Type ℓ} (o : Option A) → is_some o ≢ true → o ≡ none
undone-none none n = refl
undone-none (some a) n = absurd (n refl)

-- A row under one key does not bring another to the table.
pub set-is_some {ℓ} :
    {A : Type ℓ} (f : ℕ → ℕ → Option A) (u j : ℕ) (v : A) (u' j' : ℕ)
    → is_some (set f u j (some v) u' j') ≡ true
    → j' ≢ j
    → is_some (f u' j') ≡ true
set-is_some f u j v u' j' e n = ground (arith, e, n)
