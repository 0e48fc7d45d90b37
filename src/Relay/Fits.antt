-- ===== src/Relay/Fits.antt =====
-- What holds of the log, of Kafka and of a pass between two commands of relayAuctionLogBatch in
-- redisengine/engine.go.
use live_auction.Common.{
  ℕ, suc, ◌+◌, ◌≤◌, max, ◌≡◌, refl, sym, ap, ◌∙◌, ◌⊎◌, inl, inr, some, List, [], ◌∷◌, length, ◌==◌,
  update, Bool-cases, arith,
}
use live_auction.Engine.Data.{StateHash, EngineResult, LogEntry, Keyspace, Call, Reply}
use live_auction.Engine.State.{read_hash}
use live_auction.Engine.Store.{rejected_result, accepted_result, accepted_hash}
use live_auction.Engine.Effect.{Decided, Effect, quiet, refused, taken}
use live_auction.Engine.Run.{Op, call_of, step, step-Effect}
use live_auction.Engine.Run.Order.{Numbered}
use live_auction.Relay.Data.{Pass, at_rest, has_cursor, has_read, has_produced, has_marked, Relay}
use live_auction.Relay.{oldest, entries_above, mark_each}
use live_auction.Relay.Oldest.{oldest-cons}
use live_auction.Relay.Prefix.{HasOldest}

-- The hash counts the decisions that the log numbers.
pub record IsCounted (base : ℕ) (ks : Keyspace) : Type 0 where
  pub hash :
      (h : StateHash) × (ks.state ≡ some h) × ((read_hash h).engine_seq ≡ base + length ks.log)
  pub numbered : Numbered base ks.log

-- What a pass has read of the log; its positions are among the `n` decisions that have arrived.
abbrev pub PassFits : ℕ → List LogEntry → Pass → Type 0
PassFits n log at_rest = Unit
PassFits n log (has_cursor c) = c ≤ n
PassFits n log (has_read batch last) =
    (c : ℕ) × (t : ℕ) × (c ≤ n)
    × (t ≤ length log)
    × (batch ≡ entries_above c (oldest t log))
    × (last ≤ max n t)
PassFits n log (has_produced batch last) = last ≤ n
PassFits n log (has_marked last) = last ≤ n

-- `n` decisions have arrived in Kafka, in order, and the cursor is among them.
pub record IsRelayed (base n : ℕ) (s : Relay) : Type 0 where
  pub counted : IsCounted base s.keys
  pub ledger : HasOldest base n s.keys.log s.kafka
  pub cursor : s.cursor ≤ n
  pub passes : (w : ℕ) → PassFits n s.keys.log (s.pass w)

pub PassFits-grow :
    (n m : ℕ) (log log' : List LogEntry) (p : Pass)
    → n ≤ m
    → (log' ≡ log) ⊎ ((e : LogEntry) × (log' ≡ e ∷ log))
    → PassFits n log p
    → PassFits m log' p
PassFits-grow n m log log' at_rest up g f = tt
PassFits-grow n m log log' (has_cursor c) up g f = omega (arith, f, up)
PassFits-grow n m log log' (has_read batch last) up (inl e) (c, t, le, fits, same, l) =
    (c, t, omega (arith, le, up), rw e fits, rw e same, omega (arith, l, up))
PassFits-grow n m log log' (has_read batch last) up (inr (x, e)) (c, t, le, fits, same, l) = (
  c,
  t,
  omega (arith, le, up),
  rw e (omega (arith, fits)),
  rw e (same ∙ ap (entries_above c) (sym (oldest-cons t x log fits))),
  omega (arith, l, up),
)
PassFits-grow n m log log' (has_produced batch last) up g f = omega (arith, f, up)
PassFits-grow n m log log' (has_marked last) up g f = omega (arith, f, up)

pub passes-update :
    (n : ℕ) (log : List LogEntry) (pass : ℕ → Pass) (w : ℕ) (p : Pass)
    → ((v : ℕ) → PassFits n log (pass v))
    → PassFits n log p
    → (v : ℕ) → PassFits n log (update pass w p v)
passes-update n log pass w p f q v = elim (Bool-cases (v == w)) [
  | inl own ↦ rw own q
  | inr other ↦ rw other (f v)
]

-- A call of the scripts adds at most one decision, with the next number.
abbrev pub Grown : Keyspace → Keyspace → Type 0
Grown ks ks' = (ks'.log ≡ ks.log) ⊎ ((e : LogEntry) × (ks'.log ≡ e ∷ ks.log))

Decided-IsCounted :
    (base : ℕ) (c : Call) (ks : Keyspace) (h h' : StateHash) (result : EngineResult) (r : Reply)
    (ks' : Keyspace)
    → result.engine_seq ≡ suc (read_hash h).engine_seq
    → (read_hash h').engine_seq ≡ suc (read_hash h).engine_seq
    → Decided c ks h' result r ks'
    → (read_hash h).engine_seq ≡ base + length ks.log
    → Numbered base ks.log
    → IsCounted base ks' × Grown ks ks'
Decided-IsCounted base c ks h h' result r ks' e e' d count num = (
  record {
    hash = (h', d.stored, rw d.logged (omega (arith, e', count)));
    numbered = rw d.logged (omega (arith, e, count), refl, num);
  },
  inr (_, d.logged),
)

Effect-IsCounted :
    (base : ℕ) (c : Call) (ks : Keyspace) (h : StateHash) (r : Reply) (ks' : Keyspace)
    → Effect c ks h r ks'
    → (read_hash h).engine_seq ≡ base + length ks.log
    → Numbered base ks.log
    → IsCounted base ks' × Grown ks ks'
unfolding read_hash rejected_result accepted_result accepted_hash
Effect-IsCounted base c ks h r ks' (quiet s l p k q) count num =
    (record { hash = (h, s, rw l count); numbered = rw l num }, inl l)
Effect-IsCounted base c ks h r ks' (refused reason d) count num =
    Decided-IsCounted base c ks h _ _ r ks' refl refl d count num
Effect-IsCounted base c ks h r ks' (taken ext src basis can d) count num =
    Decided-IsCounted base c ks h _ _ r ks' refl refl d count num

pub step-IsCounted :
    (base : ℕ) (o : Op) (ks : Keyspace)
    → IsCounted base ks
    → IsCounted base (step o ks).1 × Grown ks (step o ks).1
step-IsCounted base o ks v =
    let (h, here, count) = v.hash in
    Effect-IsCounted base (call_of o) ks h (step o ks).0 (step o ks).1 (step-Effect o h ks here)
      count v.numbered

pub mark_each-same :
    (now : ℕ) (batch : List LogEntry) (ks : Keyspace)
    → ((mark_each now batch ks).state ≡ ks.state) × ((mark_each now batch ks).log ≡ ks.log)
mark_each-same now [] ks = (refl, refl)
mark_each-same now (e ∷ es) ks = mark_each-same now es ks
