-- ===== src/Proxy.antt =====
-- The proxy bids of backend/internal/redisengine/engine.go: which intent `resolveHotMaxBids` lets bid
-- next, and how much.
pub mod Within
pub mod Rank
pub mod Intents
pub mod Resolve
pub mod Ranked
pub mod Chosen
pub mod Auto
pub mod Marks
pub mod Rounds
pub mod Ending
pub mod Answer
pub mod Settled
pub mod Busy
mod Tests
use live_auction.Common.{
  ℕ, ◌+◌, Bool, true, false, ◌&&◌, not, Option, none, some, List, [], ◌∷◌, ltb, leb, ◌==◌,
  if◌then◌else◌,
}
use live_auction.Engine.State.{Live}
use live_auction.Engine.Store.{base_price}

-- `hotProxyIntent`; ids are numbers in the order of the texts.
pub record HotProxyIntent : Type 0 where
  pub id : ℕ
  pub user_id : ℕ
  pub max_amount_cents : ℕ
  pub created_at : ℕ

unfoldable pub hot_proxy_defender_beats_or_ties : HotProxyIntent → HotProxyIntent → Bool
hot_proxy_defender_beats_or_ties defender challenger =
    if not (defender.max_amount_cents == challenger.max_amount_cents)
    then ltb challenger.max_amount_cents defender.max_amount_cents
    else if not (defender.created_at == challenger.created_at)
    then ltb defender.created_at challenger.created_at
    else ltb defender.id challenger.id

unfoldable pub hot_proxy_defending_amount : HotProxyIntent → HotProxyIntent → ℕ → ℕ → ℕ
hot_proxy_defending_amount defender challenger increment cap =
    let raised =
      if ltb challenger.max_amount_cents defender.max_amount_cents
      then challenger.max_amount_cents + increment
      else challenger.max_amount_cents in
    let within =
      if ltb defender.max_amount_cents raised then defender.max_amount_cents else raised in
    if ltb 0 cap && ltb cap within then cap else within

abbrev pub wins : Option ℕ → HotProxyIntent → Bool
wins none i = false
wins (some w) i = i.user_id == w

-- The first loop: the intent of the leading user.
unfoldable pub find_defender : Option ℕ → List HotProxyIntent → Option HotProxyIntent
find_defender winner [] = none
find_defender winner (i ∷ rest) =
    let later = find_defender winner rest in if wins winner i then some i else later

-- The bid of one step: whose intent, and how much; and the intents marked as exhausted.
pub record Choice : Type 0 where
  pub step : Option (HotProxyIntent × ℕ)
  pub exhausted : List ℕ

abbrev pub exhaust : ℕ → Choice → Choice
exhaust id c = record c { exhausted = id ∷ c.exhausted }

-- What an intent of another user leads to, where there is a defender that beats it.
unfoldable pub defend : HotProxyIntent → HotProxyIntent → ℕ → Live → Choice → Choice
unfolding hot_proxy_defending_amount
defend defender challenger minimum s later =
    let amount = hot_proxy_defending_amount defender challenger s.increment s.cap in
    if ltb amount minimum
    then exhaust challenger.id later
    else record { step = some (defender, amount); exhausted = challenger.id ∷ [] }

-- The intent is beaten by the defender, if there is one.
abbrev pub is_beaten : Option HotProxyIntent → HotProxyIntent → Bool
is_beaten none i = false
is_beaten (some d) i = hot_proxy_defender_beats_or_ties d i

abbrev defend_with : Option HotProxyIntent → HotProxyIntent → ℕ → Live → Choice → Choice
defend_with none i minimum s later = later
defend_with (some d) i minimum s later = defend d i minimum s later

-- The second loop.
unfoldable pub choose_each : Option HotProxyIntent → ℕ → Live → List HotProxyIntent → Choice
unfolding hot_proxy_defender_beats_or_ties defend
choose_each defender minimum s [] = record { step = none; exhausted = [] }
choose_each defender minimum s (i ∷ rest) =
    let later = choose_each defender minimum s rest in
    if wins s.current_winner i
    then later
    else if ltb i.max_amount_cents minimum
    then exhaust i.id later
    else if is_beaten defender i
    then defend_with defender i minimum s later
    else record { step = some (i, minimum); exhausted = [] }

-- A bid of nothing is no step.
abbrev pub drop_zero : Option (HotProxyIntent × ℕ) → Option (HotProxyIntent × ℕ)
drop_zero none = none
drop_zero (some (i, amount)) = if leb amount 0 then none else some (i, amount)

-- One round of `resolveHotMaxBids` up to the bid, on the state of an auction that is active.
unfoldable pub choose_step : Live → List HotProxyIntent → Choice
unfolding base_price find_defender choose_each
choose_step s intents =
    let c =
      choose_each (find_defender s.current_winner intents) (base_price s + s.increment) s intents in
    record c { step = drop_zero c.step }
