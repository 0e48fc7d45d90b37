-- ===== src/Engine/Run/Replay.antt =====
-- The idempotency records of redisengine/engine.go: one decision for one client bid id.
use live_auction.Common.{
  ℕ, ◌≡◌, ◌≢◌, refl, ap, subst, ◌∙◌, some, List, [], ◌∷◌, All, update_self, update_ne, arith,
}
use live_auction.Engine.Data.{
  idempotency_key_reused, StateHash, EngineResult, IdemHash, Keyspace, Call, BidArgs, Reply, replay,
  ok, error,
}
use live_auction.Engine.Store.{idem_record}
use live_auction.Engine.Place.{place}
use live_auction.Engine.Effect.{
  Decided, IsQuiet, KeepsOthers, Effect, quiet, refused, taken, place-Effect,
}
use live_auction.Engine.Run.{Op, call_of, step, run, step-Effect}

ok-injective : (x y : EngineResult) (r : Reply) → r ≡ ok x → r ≡ ok y → x ≡ y
ok-injective x y r e f = cc

Decided-stored :
    (c : Call) (ks : Keyspace) (h' : StateHash) (x result : EngineResult) (r : Reply)
    (ks' : Keyspace)
    → Decided c ks h' x r ks'
    → r ≡ ok result
    → ks'.idem c.client_bid_id ≡ idem_record c result
Decided-stored c ks h' x result r ks' d e =
    ap (λ (f : ℕ → IdemHash). f c.client_bid_id) d.replayable
    ∙ update_self ks.idem c.client_bid_id (idem_record c x)
    ∙ ap (idem_record c) (ok-injective x result r d.answered e)

-- Whatever is answered with `ok` is stored for replay.
pub Effect-stored :
    (c : Call) (ks : Keyspace) (h : StateHash) (result : EngineResult) (r : Reply) (ks' : Keyspace)
    → Effect c ks h r ks'
    → r ≡ ok result
    → ks'.idem c.client_bid_id ≡ idem_record c result
Effect-stored c ks h result r ks' (quiet s l p k q) e = (subst (IsQuiet c ks') e q).1
Effect-stored c ks h result r ks' (refused reason d) e = Decided-stored c ks _ _ result r ks' d e
Effect-stored c ks h result r ks' (taken ext src basis can d) e =
    Decided-stored c ks _ _ result r ks' d e

pub Effect-KeepsOthers :
    (c : Call) (ks : Keyspace) (h : StateHash) (r : Reply) (ks' : Keyspace)
    → Effect c ks h r ks'
    → KeepsOthers c ks ks'
Effect-KeepsOthers c ks h r ks' (quiet s l p k q) = k
Effect-KeepsOthers c ks h r ks' (refused reason d) =
    λ j n. ap (λ (f : ℕ → IdemHash). f j) d.replayable ∙ update_ne ks.idem c.client_bid_id j _ n
Effect-KeepsOthers c ks h r ks' (taken ext src basis can d) =
    λ j n. ap (λ (f : ℕ → IdemHash). f j) d.replayable ∙ update_ne ks.idem c.client_bid_id j _ n

Effect-state :
    (c : Call) (ks : Keyspace) (h : StateHash) (r : Reply) (ks' : Keyspace)
    → Effect c ks h r ks'
    → (h' : StateHash) × (ks'.state ≡ some h')
Effect-state c ks h r ks' (quiet s l p k q) = (h, s)
Effect-state c ks h r ks' (refused reason d) = (_, d.stored)
Effect-state c ks h r ks' (taken ext src basis can d) = (_, d.stored)

-- None of the calls is for this client bid id.
abbrev pub IsOther : ℕ → List Op → Type 0
IsOther j os = All (λ o. j ≢ (call_of o).client_bid_id) os

idem-run :
    (os : List Op) (j : ℕ) (h : StateHash) (ks : Keyspace)
    → ks.state ≡ some h
    → IsOther j os
    → (run os ks).idem j ≡ ks.idem j
unfolding run
idem-run [] j h ks e n = refl
idem-run (o ∷ os) j h ks e n =
    let effect = step-Effect o h ks e in
    let (h', e') = Effect-state (call_of o) ks h (step o ks).0 (step o ks).1 effect in
    idem-run os j h' (step o ks).1 e' n.1
    ∙ Effect-KeepsOthers (call_of o) ks h (step o ks).0 (step o ks).1 effect j n.0

place_again :
    (a : BidArgs) (c : Call) (result : EngineResult) (ks : Keyspace)
    → ks.idem a.client_bid_id ≡ idem_record c result
    → a.request_hash ≡ c.request_hash
    → place a ks ≡ (replay result, ks)
unfolding place idem_record
place_again a c result ks e f = ground (arith, e)

place_conflict :
    (a : BidArgs) (c : Call) (result : EngineResult) (ks : Keyspace)
    → ks.idem a.client_bid_id ≡ idem_record c result
    → a.request_hash ≢ c.request_hash
    → place a ks ≡ (error idempotency_key_reused "", ks)
unfolding place idem_record
place_conflict a c result ks e f = ground (arith, e)

-- A bid that was answered with `ok` is decided once: after any calls for other client bid ids, and
-- while no key expires, the same request gets the same result as a replay, and changes no key.
pub place-run-place :
    (a b : BidArgs) (os : List Op) (h : StateHash) (ks : Keyspace) (result : EngineResult)
    → ks.state ≡ some h
    → (place a ks).0 ≡ ok result
    → IsOther a.client_bid_id os
    → b.client_bid_id ≡ a.client_bid_id
    → b.request_hash ≡ a.request_hash
    → place b (run os (place a ks).1) ≡ (replay result, run os (place a ks).1)
place-run-place a b os h ks result e answered other id hash =
    let effect = place-Effect a h ks e in
    let (h', e') = Effect-state a.call ks h (place a ks).0 (place a ks).1 effect in
    place_again b a.call result (run os (place a ks).1)
      (rw id (
        idem-run os a.client_bid_id h' (place a ks).1 e' other
        ∙ Effect-stored a.call ks h result (place a ks).0 (place a ks).1 effect answered))
      hash

-- The same client bid id with another request is refused as a conflict, and changes no key.
place-run-place_conflict :
    (a b : BidArgs) (os : List Op) (h : StateHash) (ks : Keyspace) (result : EngineResult)
    → ks.state ≡ some h
    → (place a ks).0 ≡ ok result
    → IsOther a.client_bid_id os
    → b.client_bid_id ≡ a.client_bid_id
    → b.request_hash ≢ a.request_hash
    → place b (run os (place a ks).1) ≡ (error idempotency_key_reused "", run os (place a ks).1)
place-run-place_conflict a b os h ks result e answered other id hash =
    let effect = place-Effect a h ks e in
    let (h', e') = Effect-state a.call ks h (place a ks).0 (place a ks).1 effect in
    place_conflict b a.call result (run os (place a ks).1)
      (rw id (
        idem-run os a.client_bid_id h' (place a ks).1 e' other
        ∙ Effect-stored a.call ks h result (place a ks).0 (place a ks).1 effect answered))
      hash
