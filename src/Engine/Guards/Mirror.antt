-- ===== src/Engine/Guards/Mirror.antt =====
-- The bid script's guards on the amount against `ClassifyBidAmount` of auction/rules.go, which the
-- PostgreSQL lane decides by.
use live_auction.Common.{
  ℕ, ◌+◌, ◌^◌, ◌<◌, ◌≡◌, ◌∙◌, ap, Bool, Option, none, some, ltb, ◌==◌, if◌then◌else◌, arith,
}
use live_auction.Common.Int.{pos}
use live_auction.Engine.Data.{bid_above_cap, bid_too_low}
use live_auction.Engine.State.{Live}
use live_auction.Engine.Store.{base_price, is_cap_bid}
use live_auction.Engine.Place.{Verdict, refuse, amount_verdict}
use live_auction.Rules.{
  BidClass, class_accepted, class_accepted_sold, class_too_low, class_increment_mismatch,
  class_above_cap, classify_bid_amount,
}
use live_auction.Rules.Amount.{cap_of, class_of_amount, classify-class_of_amount}

-- A cap of 0 in the hash is no cap.
abbrev pub cap_option : ℕ → Option ℕ
cap_option c = if c == 0 then none else some c

-- The class that a verdict on the amount stands for; the fat-finger guard does not change it.
abbrev pub class_of_verdict : Live → ℕ → Verdict → BidClass
class_of_verdict s amount (refuse bid_above_cap) = class_above_cap
class_of_verdict s amount (refuse bid_too_low) = class_too_low
class_of_verdict s amount (refuse _) = class_increment_mismatch
class_of_verdict s amount _ = if is_cap_bid s amount then class_accepted_sold else class_accepted

class_of_amount-verdict :
    (s : Live) (amount : ℕ) (asks : Bool)
    → class_of_amount (base_price s) s.increment (cap_option s.cap) amount
      ≡ class_of_verdict s amount (amount_verdict s amount asks)
unfolding amount_verdict is_cap_bid
class_of_amount-verdict s amount asks = ground arith

base_price-if :
    (s : Live)
    → base_price s ≡ (if ltb 0 s.accepted_bid_count then s.current_price else s.start_price)
unfolding base_price
base_price-if s = ground arith

-- For every amount, cap and prices below 10^14 cents, where the script's numbers and their texts are
-- exact, the script's verdict on the amount stands for the class that Go gives, whether or not the
-- fat-finger guard is on.
pub classify-amount_verdict :
    (s : Live) (amount : ℕ) (asks : Bool)
    → 0 < s.increment
    → s.start_price + s.increment < 10 ^ 14
    → s.current_price + s.increment < 10 ^ 14
    → s.cap < 10 ^ 14
    → amount < 10 ^ 14
    → classify_bid_amount
        (pos s.start_price)
        (pos s.current_price)
        (pos s.increment)
        (cap_of (cap_option s.cap))
        (pos amount)
        (ltb 0 s.accepted_bid_count)
      ≡ some (class_of_verdict s amount (amount_verdict s amount asks))
classify-amount_verdict s amount asks p h k c a =
    classify-class_of_amount s.start_price s.current_price s.increment (cap_option s.cap) amount
      (ltb 0 s.accepted_bid_count) p (omega arith) (omega arith) (omega arith)
    ∙ ap some (rw (← base_price-if s) (class_of_amount-verdict s amount asks))
