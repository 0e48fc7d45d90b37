-- ===== src/Proxy/Chosen.antt =====
-- What a round of redisengine/engine.go chooses on a ranked list of intents.
use live_auction.Common.{
  ℕ, ◌+◌, ◌-◌, ◌%◌, ◌≤◌, ◌<◌, ◌≡◌, refl, true, false, Option, none, some, List, [], ◌∷◌, ◌⊎◌, inl,
  inr, All, arith,
}
use live_auction.Engine.State.{Live}
use live_auction.Engine.Store.{base_price}
use live_auction.Proxy.{
  HotProxyIntent, hot_proxy_defending_amount, wins, find_defender, is_beaten, choose_each,
  choose_step,
}
use live_auction.Proxy.Ranked.{Beats, Beats-asym, Beats-max}

-- The next price of the auction.
abbrev pub next_price : Live → ℕ
next_price s = base_price s + s.increment

-- The intent leads, or cannot pay the next price.
abbrev pub IsCalm : Live → HotProxyIntent → Type 0
IsCalm s i = (wins s.current_winner i ≡ true) ⊎ (i.max_amount_cents < next_price s)

-- The maximum is on the grid of the auction and at most its cap, as `validateMaxBidIntentAmount`
-- has seen to.
pub record Fits (s : Live) (i : HotProxyIntent) : Type 0 where
  pub aligned :
      base_price s ≤ i.max_amount_cents → (i.max_amount_cents - base_price s) % s.increment ≡ 0
  pub under_cap : 0 < s.cap → i.max_amount_cents ≤ s.cap

choose_each-calm :
    (d : Option HotProxyIntent) (s : Live) (xs : List HotProxyIntent)
    → All (IsCalm s) xs
    → (choose_each d (next_price s) s xs).step ≡ none
unfolding choose_each
choose_each-calm d s [] v = refl
choose_each-calm d s (x ∷ xs) (inl leads, v) = ground (arith, leads, choose_each-calm d s xs v)
choose_each-calm d s (x ∷ xs) (inr low, v) = ground (arith, low, choose_each-calm d s xs v)

-- Where every intent is calm nobody bids.
pub choose_step-calm :
    (s : Live) (xs : List HotProxyIntent) → All (IsCalm s) xs → (choose_step s xs).step ≡ none
unfolding choose_step
choose_step-calm s xs v = rw (choose_each-calm (find_defender s.current_winner xs) s xs v) refl

unbeaten :
    (w : Option ℕ) (x : HotProxyIntent) (xs : List HotProxyIntent)
    → All (Beats x) xs
    → is_beaten (find_defender w xs) x ≡ false
unfolding find_defender
unbeaten w x [] v = refl
unbeaten w x (y ∷ ys) v = ground (arith, Beats-asym x y v.0, unbeaten w x ys v.1)

-- The strongest intent challenges at the next price.
pub choose_step-head :
    (s : Live) (x : HotProxyIntent) (xs : List HotProxyIntent)
    → 0 < s.increment
    → wins s.current_winner x ≡ false
    → next_price s ≤ x.max_amount_cents
    → All (Beats x) xs
    → choose_step s (x ∷ xs) ≡ record { step = some (x, next_price s); exhausted = [] }
unfolding choose_step
choose_step-head s x xs pos other can v =
    ground (arith, other, can, unbeaten s.current_winner x xs v)

pub defending_amount_lem :
    (s : Live) (x y : HotProxyIntent)
    → Beats x y
    → Fits s x
    → let amount = hot_proxy_defending_amount x y s.increment s.cap in
      (y.max_amount_cents ≤ amount) × (amount ≤ x.max_amount_cents)
unfolding hot_proxy_defending_amount
defending_amount_lem s x y b f = ground (arith, Beats-max x y b, f.under_cap)

-- The leading intent answers the second one.
pub choose_step-second :
    (s : Live) (x y : HotProxyIntent) (xs : List HotProxyIntent)
    → 0 < s.increment
    → wins s.current_winner x ≡ true
    → wins s.current_winner y ≡ false
    → next_price s ≤ y.max_amount_cents
    → Beats x y
    → Fits s x
    → choose_step s (x ∷ y ∷ xs) ≡ record {
      step = some (x, hot_proxy_defending_amount x y s.increment s.cap);
      exhausted = y.id ∷ [];
    }
unfolding choose_step
choose_step-second s x y xs pos leads other can b f =
    ground (arith, leads, other, can, b, defending_amount_lem s x y b f)

pub mod-add_self_zero : (a m : ℕ) → a % m ≡ 0 → (a + m) % m ≡ 0
mod-add_self_zero a m e = grind arith

-- What the defending bid costs: at least the maximum it answers, at most its own, and on the grid.
pub defending_amount_grid :
    (s : Live) (x y : HotProxyIntent)
    → Beats x y
    → Fits s x
    → Fits s y
    → base_price s ≤ y.max_amount_cents
    → let amount = hot_proxy_defending_amount x y s.increment s.cap in
      (amount - base_price s) % s.increment ≡ 0
unfolding hot_proxy_defending_amount
defending_amount_grid s x y b f g low = ground (
  arith,
  Beats-max x y b,
  f.under_cap,
  f.aligned,
  g.aligned low,
  mod-add_self_zero (y.max_amount_cents - base_price s) s.increment,
)
