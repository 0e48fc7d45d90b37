-- ===== src/Engine/Run/Order.antt =====
-- The total order of decisions: `engine_seq` and the log stream of redisengine/engine.go.
use live_auction.Common.{
  ℕ, suc, ◌+◌, ◌<◌, ◌≡◌, refl, sym, subst₂, Option, some, List, [], ◌∷◌, length, All, update,
  update_self, arith,
}
use live_auction.Engine.Data.{StateHash, EngineResult, LogEntry, Keyspace, Call, Reply}
use live_auction.Engine.State.{read_hash}
use live_auction.Engine.Store.{rejected_result, accepted_result, accepted_hash}
use live_auction.Engine.Effect.{Decided, Effect, quiet, refused, taken}
use live_auction.Engine.Run.{Op, call_of, step, run, step-Effect}

-- The newest entry is numbered by how many there are above `base`.
abbrev pub Numbered : ℕ → List LogEntry → Type 0
Numbered base [] = Unit
Numbered base (e ∷ es) =
    (e.engine_seq ≡ base + length (e ∷ es))
    × (e.payload.engine_seq ≡ e.engine_seq)
    × Numbered base es

abbrev pub Awaiting : (ℕ → Option EngineResult) → List LogEntry → Type 0
Awaiting pending es = All (λ e. pending e.engine_seq ≡ some e.payload) es

pub record InOrder (base : ℕ) (h : StateHash) (ks : Keyspace) : Type 0 where
  pub here : ks.state ≡ some h
  pub counted : (read_hash h).engine_seq ≡ base + length ks.log
  pub numbered : Numbered base ks.log
  pub awaiting : Awaiting ks.pending ks.log

Awaiting-update :
    (pending : ℕ → Option EngineResult) (base n : ℕ) (v : EngineResult) (es : List LogEntry)
    → Numbered base es
    → base + length es < n
    → Awaiting pending es
    → Awaiting (update pending n (some v)) es
Awaiting-update pending base n v [] num lt w = tt
Awaiting-update pending base n v (e ∷ es) num lt w =
    (ground arith, Awaiting-update pending base n v es num.2 (omega arith) w.1)

-- A decision with the next number keeps the order.
Decided-InOrder :
    (base : ℕ) (c : Call) (ks : Keyspace) (h h' : StateHash) (result : EngineResult) (r : Reply)
    (ks' : Keyspace)
    → result.engine_seq ≡ suc (read_hash h).engine_seq
    → (read_hash h').engine_seq ≡ suc (read_hash h).engine_seq
    → Decided c ks h' result r ks'
    → InOrder base h ks
    → InOrder base h' ks'
Decided-InOrder base c ks h h' result r ks' e e' d v = record {
  here = d.stored;
  counted = rw d.logged (omega (arith, v.counted));
  numbered = rw d.logged (omega (arith, v.counted), refl, v.numbered);
  awaiting = subst₂ Awaiting (sym d.awaiting) (sym d.logged) (
    update_self ks.pending result.engine_seq (some result),
    Awaiting-update ks.pending base result.engine_seq result ks.log v.numbered
        (omega (arith, v.counted)) v.awaiting,
  );
}

Effect-InOrder :
    (base : ℕ) (c : Call) (ks : Keyspace) (h : StateHash) (r : Reply) (ks' : Keyspace)
    → Effect c ks h r ks'
    → InOrder base h ks
    → (h' : StateHash) × InOrder base h' ks'
unfolding read_hash rejected_result accepted_result accepted_hash
Effect-InOrder base c ks h r ks' (quiet s l p k q) v = (
  h,
  record {
    here = s;
    counted = rw l v.counted;
    numbered = rw l v.numbered;
    awaiting = subst₂ Awaiting (sym p) (sym l) v.awaiting;
  },
)
Effect-InOrder base c ks h r ks' (refused reason d) v =
    (_, Decided-InOrder base c ks h _ _ r ks' refl refl d v)
Effect-InOrder base c ks h r ks' (taken ext src basis can d) v =
    (_, Decided-InOrder base c ks h _ _ r ks' refl refl d v)

-- Whatever bids and confirmations are run, and in whatever order, the decisions are numbered
-- without a gap: `engine_seq` has moved by the length of the log, each entry of the log and its
-- payload carry the next number, and the pending hash holds each entry's payload under its number.
pub run-InOrder :
    (base : ℕ) (os : List Op) (h : StateHash) (ks : Keyspace)
    → InOrder base h ks
    → (h' : StateHash) × InOrder base h' (run os ks)
unfolding run
run-InOrder base [] h ks v = (h, v)
run-InOrder base (o ∷ os) h ks v =
    let (h', v') =
      Effect-InOrder base (call_of o) ks h (step o ks).0 (step o ks).1 (step-Effect o h ks v.here)
        v in
    run-InOrder base os h' (step o ks).1 v'
