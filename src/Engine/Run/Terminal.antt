-- ===== src/Engine/Run/Terminal.antt =====
-- The scripts of redisengine/engine.go over an auction that is sold, or not active at all.
use live_auction.Common.{◌≡◌, ◌≢◌, some, List, [], ◌∷◌, arith}
use live_auction.Engine.Data.{active, StateHash, Keyspace, Call, Reply}
use live_auction.Engine.State.{Live, read_hash}
use live_auction.Engine.Effect.{Effect, quiet, refused, taken}
use live_auction.Engine.Run.{Op, call_of, step, run, step-Effect}

-- The parts of a state that only an accepted bid may change.
pub record IsFrozen (s s' : Live) : Type 0 where
  pub status : s'.status ≡ s.status
  pub price : s'.current_price ≡ s.current_price
  pub winner : s'.current_winner ≡ s.current_winner
  pub count : s'.accepted_bid_count ≡ s.accepted_bid_count
  pub end : s'.end_at_ms ≡ s.end_at_ms

Effect-IsFrozen :
    (c : Call) (ks : Keyspace) (h : StateHash) (r : Reply) (ks' : Keyspace)
    → (read_hash h).status ≢ active
    → Effect c ks h r ks'
    → (h' : StateHash) × (ks'.state ≡ some h') × IsFrozen (read_hash h) (read_hash h')
Effect-IsFrozen c ks h r ks' n (quiet s l p k q) = (h, s, ground arith)
Effect-IsFrozen c ks h r ks' n (refused reason d) = (_, d.stored, unfold read_hash in ground arith)
Effect-IsFrozen c ks h r ks' n (taken ext src basis can d) = absurd (n can.is_open)

-- Once an auction is sold, or in any state but ACTIVE, no run of bids and confirmations changes its
-- status, price, winner, number of accepted bids or end.
pub run-IsFrozen :
    (os : List Op) (h : StateHash) (ks : Keyspace)
    → ks.state ≡ some h
    → (read_hash h).status ≢ active
    → (h' : StateHash) × ((run os ks).state ≡ some h') × IsFrozen (read_hash h) (read_hash h')
unfolding run
run-IsFrozen [] h ks e n = (h, e, ground arith)
run-IsFrozen (o ∷ os) h ks e n =
    let (h', e', first) =
      Effect-IsFrozen (call_of o) ks h (step o ks).0 (step o ks).1 n (step-Effect o h ks e) in
    let (h'', e'', rest) = run-IsFrozen os h' (step o ks).1 e' (rw first.status n) in
    (h'', e'', ground arith)
