-- ===== src/Engine/Run/Price.antt =====
-- The price rules over any run of the scripts of redisengine/engine.go.
use native.Mathlib.Nat.{add-mod, zero-mod}
use live_auction.Common.{
  ℕ, ◌+◌, ◌-◌, ◌%◌, ◌≤◌, ◌<◌, ◌≡◌, refl, Bool, true, some, List, [], ◌∷◌, is_some, or_default,
  arith,
}
use live_auction.Engine.Data.{sold, StateHash, Keyspace, Call, Reply}
use live_auction.Engine.State.{Live, read_hash}
use live_auction.Engine.Store.{base_price, accepted_hash, outcome}
use live_auction.Engine.Effect.{CanTake, Effect, quiet, refused, taken}
use live_auction.Engine.Run.{Op, call_of, step, run, step-Effect}

-- Once a bid is accepted there is a winner, and the price is on the increment grid above the start
-- and at most the cap; a sold auction stands at its cap.
pub record IsPriced (s : Live) : Type 0 where
  pub grid : 0 < s.accepted_bid_count → (s.current_price - s.start_price) % s.increment ≡ 0
  pub above_start : 0 < s.accepted_bid_count → s.start_price + s.increment ≤ s.current_price
  pub under_cap : 0 < s.accepted_bid_count → 0 < s.cap → s.current_price ≤ s.cap
  pub won : 0 < s.accepted_bid_count → is_some s.current_winner ≡ true
  pub sold_at_cap : s.status ≡ sold → (0 < s.accepted_bid_count) × (s.current_price ≡ s.cap)

mod-add_zero : (x y m : ℕ) → x % m ≡ 0 → y % m ≡ 0 → (x + y) % m ≡ 0
mod-add_zero x y m e f = rw (add-mod x y m, e, f) (zero-mod m)

mod-sub_trans : (a b c m : ℕ) → c ≤ b → b ≤ a → (a - b) % m ≡ 0 → (b - c) % m ≡ 0 → (a - c) % m ≡ 0
mod-sub_trans a b c m h k e f =
    let split : a - c ≡ a - b + (b - c) = omega arith in
    rw split (mod-add_zero (a - b) (b - c) m e f)

outcome-sold :
    (c : Call) (s : Live) (extends : Bool) → (outcome c s extends).status ≡ sold → c.amount ≡ s.cap
unfolding outcome
outcome-sold c s extends e = ground arith

accepted-IsPriced :
    (c : Call) (h : StateHash) (extends : Bool)
    → 0 < (read_hash h).increment
    → CanTake (read_hash h) c
    → IsPriced (read_hash h)
    → IsPriced (read_hash (accepted_hash c h (read_hash h) (outcome c (read_hash h) extends)))
unfolding read_hash accepted_hash base_price outcome
accepted-IsPriced c h extends pos can v = record {
  grid = λ _. ground (
    arith,
    mod-sub_trans c.amount (or_default h.current_price_cents 0) (or_default h.start_price_cents 0)
        (or_default h.increment_cents 0),
  );
  above_start = λ _. ground arith;
  under_cap = λ _ p. can.under_cap p;
  won = λ _. refl;
  sold_at_cap = λ e. (omega arith, outcome-sold c (read_hash h) extends e);
}

Effect-IsPriced :
    (c : Call) (ks : Keyspace) (h : StateHash) (r : Reply) (ks' : Keyspace)
    → Effect c ks h r ks'
    → 0 < (read_hash h).increment
    → IsPriced (read_hash h)
    → (h' : StateHash) × (ks'.state ≡ some h')
      × ((read_hash h').increment ≡ (read_hash h).increment)
      × IsPriced (read_hash h')
Effect-IsPriced c ks h r ks' (quiet s l p k q) pos v = (h, s, refl, v)
Effect-IsPriced c ks h r ks' (refused reason d) pos v = (
  _,
  d.stored,
  unfold read_hash in refl,
  unfold read_hash in
      record {
        grid = v.grid;
        above_start = v.above_start;
        under_cap = v.under_cap;
        won = v.won;
        sold_at_cap = v.sold_at_cap;
      },
)
Effect-IsPriced c ks h r ks' (taken ext src basis can d) pos v =
    (_, d.stored, unfold read_hash accepted_hash in refl, accepted-IsPriced c h ext pos can v)

-- Under a rule with a positive increment, the price rules hold after any run that starts where they
-- hold: bids are on the grid, at most the cap, and a sold auction was sold at its cap to a winner.
pub run-IsPriced :
    (os : List Op) (h : StateHash) (ks : Keyspace)
    → ks.state ≡ some h
    → 0 < (read_hash h).increment
    → IsPriced (read_hash h)
    → (h' : StateHash) × ((run os ks).state ≡ some h') × IsPriced (read_hash h')
unfolding run
run-IsPriced [] h ks e pos v = (h, e, v)
run-IsPriced (o ∷ os) h ks e pos v =
    let (h', e', same, v') =
      Effect-IsPriced (call_of o) ks h (step o ks).0 (step o ks).1 (step-Effect o h ks e) pos v in
    run-IsPriced os h' (step o ks).1 e' (rw same pos) v'
