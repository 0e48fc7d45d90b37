-- ===== src/Proxy/Within.antt =====
-- What a proxy bid of redisengine/engine.go may cost.
use live_auction.Common.{ℕ, ◌+◌, ◌≤◌, Option, none, some, List, [], ◌∷◌, arith}
use live_auction.Engine.State.{Live}
use live_auction.Engine.Store.{base_price}
use live_auction.Proxy.{
  HotProxyIntent, hot_proxy_defending_amount, find_defender, Choice, defend, choose_each, drop_zero,
  choose_step,
}

-- The bid of a choice, if there is one, is at least the minimum and at most the maximum of its intent.
abbrev pub Within : ℕ → Option (HotProxyIntent × ℕ) → Type 0
Within minimum none = Unit
Within minimum (some (i, amount)) = (minimum ≤ amount) × (amount ≤ i.max_amount_cents)

defending_amount_max :
    (d i : HotProxyIntent) (increment cap : ℕ)
    → hot_proxy_defending_amount d i increment cap ≤ d.max_amount_cents
unfolding hot_proxy_defending_amount
defending_amount_max d i increment cap = ground arith

defend-Within :
    (d i : HotProxyIntent) (minimum : ℕ) (s : Live) (later : Choice)
    → Within minimum later.step
    → Within minimum (defend d i minimum s later).step
unfolding defend
defend-Within d i minimum s later v = ground (arith, v, defending_amount_max d i s.increment s.cap)

choose_each-Within :
    (defender : Option HotProxyIntent) (minimum : ℕ) (s : Live) (intents : List HotProxyIntent)
    → Within minimum (choose_each defender minimum s intents).step
unfolding choose_each
choose_each-Within defender minimum s [] = tt
choose_each-Within none minimum s (i ∷ rest) =
    ground (arith, choose_each-Within none minimum s rest)
choose_each-Within (some d) minimum s (i ∷ rest) =
    let v = choose_each-Within (some d) minimum s rest in
    ground (arith, v, defend-Within d i minimum s (choose_each (some d) minimum s rest) v)

drop_zero-Within :
    (minimum : ℕ) (step : Option (HotProxyIntent × ℕ))
    → Within minimum step
    → Within minimum (drop_zero step)
drop_zero-Within minimum none v = tt
drop_zero-Within minimum (some (i, amount)) v = ground (arith, v)

-- The bid that a round of the resolver places for an intent reaches the auction's next price and never
-- exceeds the maximum that the intent's user has set, whether it answers as the defender or challenges.
pub choose_step-Within :
    (s : Live) (intents : List HotProxyIntent)
    → Within (base_price s + s.increment) (choose_step s intents).step
unfolding choose_step
choose_step-Within s intents = drop_zero-Within (base_price s + s.increment) _ (
    choose_each-Within (find_defender s.current_winner intents) (base_price s + s.increment) s
      intents)
