-- ===== src/Engine/Run/Decide.antt =====
-- A client bid id of redisengine/engine.go is decided at most once: with a decision in its idempotency
-- record, both scripts leave every key as it is.
use live_auction.Common.{ℕ, ◌≡◌, ◌≢◌, ◌==◌, sym, subst, false, some, inl, inr, Bool-cases, arith}
use live_auction.Engine.Data.{
  EngineResult, IdemHash, Keyspace, BidArgs, ConfirmArgs, Reply, ok, StateHash,
}
use live_auction.Engine.Place.{replay_of, place}
use live_auction.Engine.Confirm.{is_held, confirm_replay, confirm}
use live_auction.Engine.Run.{Op, bid, confirmation, call_of, step, step-Effect}
use live_auction.Engine.Run.Replay.{Effect-KeepsOthers}

-- The record holds a decision, which is not a request to confirm.
pub record IsDone (i : IdemHash) : Type 0 where
  pub hashed : (h : ℕ) × (i.request_hash ≡ some h)
  pub decided : (x : EngineResult) × (i.result_json ≡ some x) × (is_held x.code ≡ false)

-- The reply decides nothing, and no key has changed.
pub record IsStill (ks : Keyspace) (r : Reply) (ks' : Keyspace) : Type 0 where
  pub same : ks' ≡ ks
  pub no_decision : (x : EngineResult) → r ≢ ok x

place-IsStill :
    (a : BidArgs) (ks : Keyspace)
    → IsDone (ks.idem a.client_bid_id)
    → IsStill ks (place a ks).0 (place a ks).1
unfolding place replay_of
place-IsStill a ks d =
    let (h, e) = d.hashed in
    let (x, f, g) = d.decided in
    record { same = ground (arith, e, f); no_decision = λ y c. ground (arith, e, f, c) }

confirm-IsStill :
    (a : ConfirmArgs) (ks : Keyspace)
    → IsDone (ks.idem a.client_bid_id)
    → IsStill ks (confirm a ks).0 (confirm a ks).1
unfolding confirm confirm_replay
confirm-IsStill a ks d =
    let (h, e) = d.hashed in
    let (x, f, g) = d.decided in
    record { same = ground (arith, e, f, g); no_decision = λ y c. ground (arith, e, f, g, c) }

-- A call for a client bid id whose record holds a decision decides nothing and leaves every key as it is,
-- in the bid script and in the confirm script.
pub step-IsStill :
    (o : Op) (ks : Keyspace)
    → IsDone (ks.idem (call_of o).client_bid_id)
    → IsStill ks (step o ks).0 (step o ks).1
unfolding step
step-IsStill (bid a) ks d = place-IsStill a ks d
step-IsStill (confirmation a) ks d = confirm-IsStill a ks d

-- A decision stays.
pub step-IsDone :
    (o : Op) (h : StateHash) (ks : Keyspace) (j : ℕ)
    → ks.state ≡ some h
    → IsDone (ks.idem j)
    → IsDone ((step o ks).1.idem j)
step-IsDone o h ks j e d = elim (Bool-cases (j == (call_of o).client_bid_id)) [
  | inl own ↦
      let at : j ≡ (call_of o).client_bid_id = ground (arith, own) in
      let still = step-IsStill o ks (subst (λ k. IsDone (ks.idem k)) at d) in
      subst (λ (k : Keyspace). IsDone (k.idem j)) (sym still.same) d
  | inr other ↦
      let apart : j ≢ (call_of o).client_bid_id = λ at. ground (arith, other, at) in
      subst IsDone
        (sym (
          Effect-KeepsOthers (call_of o) ks h (step o ks).0 (step o ks).1 (step-Effect o h ks e) j
            apart))
        d
]
