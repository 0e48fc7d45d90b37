-- ===== src/Rules/Amount.antt =====
-- `ClassifyBidAmount` of backend/internal/auction/rules.go: which amounts it accepts.
use live_auction.Common.{
  ℕ, ◌+◌, ◌-◌, ◌%◌, ◌^◌, ◌<◌, ◌≡◌, Bool, not, Option, none, some, ltb, ◌==◌, if◌then◌else◌, arith,
}
use live_auction.Common.Int.{ℤ, pos, +ℤ_pos, -ℤ_pos, rem_ℤ_pos}
use live_auction.Rules.{
  BidClass, class_accepted, class_accepted_sold, class_too_low, class_increment_mismatch,
  class_above_cap, classify_bid_amount,
}

abbrev pub cap_of : Option ℕ → Option ℤ
cap_of none = none
cap_of (some c) = some (pos c)

abbrev exceeds : Option ℕ → ℕ → Bool
exceeds none amount = ltb 0 0
exceeds (some c) amount = ltb c amount

abbrev hits : Option ℕ → ℕ → Bool
hits none amount = ltb 0 0
hits (some c) amount = amount == c

-- The class over prices that stay in the range of `int64`, by natural numbers.
abbrev pub class_of_amount : ℕ → ℕ → Option ℕ → ℕ → BidClass
class_of_amount base increment ceiling amount =
    if exceeds ceiling amount
    then class_above_cap
    else if ltb amount (base + increment)
    then class_too_low
    else if not ((amount - base) % increment == 0)
    then class_increment_mismatch
    else if hits ceiling amount
    then class_accepted_sold
    else class_accepted

-- With a positive increment and prices in the range of `int64`, `ClassifyBidAmount` returns the class
-- that natural numbers give: above the cap, below the base and one increment, off the increment grid,
-- at the cap, or accepted; the base is the start price as long as there is no bid.
pub classify-class_of_amount :
    (start current increment : ℕ) (ceiling : Option ℕ) (amount : ℕ) (bid : Bool)
    → 0 < increment
    → start + increment < 2 ^ 63
    → current + increment < 2 ^ 63
    → amount < 2 ^ 63
    → classify_bid_amount
        (pos start)
        (pos current)
        (pos increment)
        (cap_of ceiling)
        (pos amount)
        bid
      ≡ some (class_of_amount (if bid then current else start) increment ceiling amount)
unfolding classify_bid_amount
classify-class_of_amount start current increment ceiling amount bid p s c a = ground (
  arith,
  +ℤ_pos start increment,
  +ℤ_pos current increment,
  -ℤ_pos amount start,
  -ℤ_pos amount current,
  rem_ℤ_pos (amount - start) increment,
  rem_ℤ_pos (amount - current) increment,
)
