-- ===== src/Engine/Run/Raise.antt =====
-- The leading price over any run of the scripts of redisengine/engine.go.
use native.Mathlib.Nat.{add-mul}
use live_auction.Common.{◌+◌, ◌-◌, ◌*◌, ◌≤◌, ◌<◌, ◌≡◌, ◌∙◌, Bool, some, List, [], ◌∷◌, arith}
use live_auction.Engine.Data.{StateHash, Keyspace, Call, Reply}
use live_auction.Engine.State.{Live, read_hash}
use live_auction.Engine.Store.{base_price, accepted_hash, outcome}
use live_auction.Engine.Effect.{CanTake, Effect, quiet, refused, taken}
use live_auction.Engine.Run.{Op, call_of, step, run, step-Effect}

-- The price does not fall once there is a bid, and each bid that is counted raises it by at least
-- the increment.
pub record IsRaise (s s' : Live) : Type 0 where
  pub counted : s.accepted_bid_count ≤ s'.accepted_bid_count
  pub raised :
      0 < s.accepted_bid_count
      → s.current_price + (s'.accepted_bid_count - s.accepted_bid_count) * s.increment
        ≤ s'.current_price
  pub same_step : s'.increment ≡ s.increment

IsRaise-refl : (s : Live) → IsRaise s s
IsRaise-refl s = grind arith

IsRaise-trans : (s t u : Live) → IsRaise s t → IsRaise t u → IsRaise s u
IsRaise-trans s t u p q = record {
  counted = omega arith;
  raised = λ b.
      let split : u.accepted_bid_count - s.accepted_bid_count
          ≡ (t.accepted_bid_count - s.accepted_bid_count)
            + (u.accepted_bid_count - t.accepted_bid_count) =
        omega arith in
      let later : t.current_price + (u.accepted_bid_count - t.accepted_bid_count) * s.increment
          ≤ u.current_price =
        rw (← p.same_step) (q.raised (omega arith)) in
      rw
        (
          split,
          add-mul (t.accepted_bid_count - s.accepted_bid_count)
              (u.accepted_bid_count - t.accepted_bid_count) s.increment,
        )
        (omega (arith, p.raised b, later));
  same_step = q.same_step ∙ p.same_step;
}

accepted-IsRaise :
    (c : Call) (h : StateHash) (extends : Bool)
    → CanTake (read_hash h) c
    → IsRaise
        (read_hash h)
        (read_hash (accepted_hash c h (read_hash h) (outcome c (read_hash h) extends)))
unfolding read_hash accepted_hash base_price
accepted-IsRaise c h extends can = ground arith

Effect-IsRaise :
    (c : Call) (ks : Keyspace) (h : StateHash) (r : Reply) (ks' : Keyspace)
    → Effect c ks h r ks'
    → (h' : StateHash) × (ks'.state ≡ some h') × IsRaise (read_hash h) (read_hash h')
Effect-IsRaise c ks h r ks' (quiet s l p k q) = (h, s, IsRaise-refl (read_hash h))
Effect-IsRaise c ks h r ks' (refused reason d) = (_, d.stored, unfold read_hash in grind arith)
Effect-IsRaise c ks h r ks' (taken ext src basis can d) =
    (_, d.stored, accepted-IsRaise c h ext can)

-- Over any run the number of accepted bids does not fall, and from the first of them on the price
-- has risen by at least the increment for each further one.
run-IsRaise :
    (os : List Op) (h : StateHash) (ks : Keyspace)
    → ks.state ≡ some h
    → (h' : StateHash) × ((run os ks).state ≡ some h') × IsRaise (read_hash h) (read_hash h')
unfolding run
run-IsRaise [] h ks e = (h, e, IsRaise-refl (read_hash h))
run-IsRaise (o ∷ os) h ks e =
    let (h', e', first) =
      Effect-IsRaise (call_of o) ks h (step o ks).0 (step o ks).1 (step-Effect o h ks e) in
    let (h'', e'', rest) = run-IsRaise os h' (step o ks).1 e' in
    (h'', e'', IsRaise-trans (read_hash h) (read_hash h') (read_hash h'') first rest)
