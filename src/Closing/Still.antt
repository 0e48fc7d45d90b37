-- ===== src/Closing/Still.antt =====
-- The scripts of redisengine/engine.go while the hash is paused or the time of the calls is past its
-- end: they accept nothing.
use live_auction.Common.{
  ◌<◌, ◌≡◌, ◌∙◌, ◌⊎◌, inl, inr, true, some, List, [], ◌∷◌, All, All-weaken, arith,
}
use live_auction.Engine.Data.{StateHash, Keyspace, Reply}
use live_auction.Engine.State.{Live, read_hash}
use live_auction.Engine.Effect.{CanTake, Effect, quiet, refused, taken}
use live_auction.Engine.Run.{Op, call_of, step, run, step-Effect}

-- What stays while nothing is accepted.
pub record IsStill (s s' : Live) : Type 0 where
  pub paused : s'.paused ≡ s.paused
  pub price : s'.current_price ≡ s.current_price
  pub winner : s'.current_winner ≡ s.current_winner
  pub end : s'.end_at_ms ≡ s.end_at_ms

pub IsStill-trans : (a b c : Live) → IsStill a b → IsStill b c → IsStill a c
IsStill-trans a b c m n = record {
  paused = n.paused ∙ m.paused;
  price = n.price ∙ m.price;
  winner = n.winner ∙ m.winner;
  end = n.end ∙ m.end;
}

-- The hash is paused, or the call comes after its end.
abbrev pub IsShut : Live → Op → Type 0
IsShut s o = (s.paused ≡ true) ⊎ (s.end_at_ms < (call_of o).now_ms)

IsShut-CanTake : (s : Live) (o : Op) → IsShut s o → CanTake s (call_of o) → ⊥
IsShut-CanTake s o (inl p) can = cc (p, can.running)
IsShut-CanTake s o (inr late) can = omega (arith, late, can.in_time)

IsShut-IsStill : (s s' : Live) (o : Op) → IsStill s s' → IsShut s o → IsShut s' o
IsShut-IsStill s s' o m (inl p) = inl (m.paused ∙ p)
IsShut-IsStill s s' o m (inr late) = inr (rw m.end late)

Effect-IsStill :
    (o : Op) (ks : Keyspace) (h : StateHash) (r : Reply) (ks' : Keyspace)
    → IsShut (read_hash h) o
    → Effect (call_of o) ks h r ks'
    → (h' : StateHash) × (ks'.state ≡ some h') × IsStill (read_hash h) (read_hash h')
Effect-IsStill o ks h r ks' n (quiet s l p k q) = (h, s, ground arith)
Effect-IsStill o ks h r ks' n (refused reason d) = (_, d.stored, unfold read_hash in ground arith)
Effect-IsStill o ks h r ks' n (taken ext src basis can d) =
    absurd (IsShut-CanTake (read_hash h) o n can)

pub run-IsStill :
    (os : List Op) (h : StateHash) (ks : Keyspace)
    → ks.state ≡ some h
    → All (IsShut (read_hash h)) os
    → (h' : StateHash) × ((run os ks).state ≡ some h') × IsStill (read_hash h) (read_hash h')
unfolding run
run-IsStill [] h ks e n = (h, e, ground arith)
run-IsStill (o ∷ os) h ks e n =
    let (h', e', first) =
      Effect-IsStill o ks h (step o ks).0 (step o ks).1 n.0 (step-Effect o h ks e) in
    let (h'', e'', rest) = run-IsStill os h' (step o ks).1 e' (
      All-weaken (IsShut (read_hash h)) _
        (λ p v. IsShut-IsStill (read_hash h) (read_hash h') p first v) os n.1) in
    (h'', e'', IsStill-trans (read_hash h) (read_hash h') (read_hash h'') first rest)

-- Every call of a list on a paused hash.
pub All-IsShut : (s : Live) (os : List Op) → s.paused ≡ true → All (IsShut s) os
All-IsShut s [] p = tt
All-IsShut s (o ∷ os) p = (inl p, All-IsShut s os p)
