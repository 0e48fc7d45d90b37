-- ===== src/Rules.antt =====
-- The rules of an auction, backend/internal/auction/rules.go: how a rule is validated, a bid amount
-- classified and the end extended, over `int64`.
pub mod Validate
pub mod Amount
pub mod Extension
mod Tests
use live_auction.Common.{
  Bool, false, not, ◌&&◌, ◌||◌, Option, none, some, List, [], ◌∷◌, ◌++◌, if◌then◌else◌,
}
use live_auction.Common.Int.{ℤ, pos, ltb_ℤ, ◌+ℤ◌, ◌-ℤ◌, rem_ℤ}

pub record RuleInput : Type 0 where
  pub start_price_cents : ℤ
  pub increment_cents : ℤ
  pub cap_price_cents : Option ℤ
  pub duration_seconds : ℤ
  pub extend_window_seconds : ℤ
  pub extend_by_seconds : ℤ
  pub max_extend_count : ℤ
  pub fat_finger_threshold_cents : Option ℤ

-- `RuleViolation`, a constructor for each message; the last two carry `SuggestedCaps`.
pub data RuleViolation : Type 0 where
  start_price_negative increment_not_positive duration_out_of_range : RuleViolation
  extend_window_out_of_range extend_by_out_of_range max_extend_count_out_of_range : RuleViolation
  fat_finger_too_small : RuleViolation
  cap_unreachable cap_off_grid : ℤ → ℤ → RuleViolation

abbrev pub when : Bool → RuleViolation → List RuleViolation
when b v = if b then v ∷ [] else []

-- a < lo || a > hi
abbrev pub out_of : ℤ → ℤ → ℤ → Bool
out_of lo hi a = ltb_ℤ a lo || ltb_ℤ hi a

abbrev is_zero_ℤ : ℤ → Bool
is_zero_ℤ a = not (ltb_ℤ a (pos 0)) && not (ltb_ℤ (pos 0) a)

check_fat_finger : ℤ → Option ℤ → List RuleViolation
check_fat_finger increment none = []
check_fat_finger increment (some threshold) =
    when (ltb_ℤ (pos 0) increment && not (ltb_ℤ increment threshold)) fat_finger_too_small

-- The largest grid price at most the cap.
unfoldable pub lower_cap : ℤ → ℤ → ℤ → ℤ
lower_cap start increment cap = cap -ℤ rem_ℤ (cap -ℤ start) increment

unfoldable pub check_cap : ℤ → ℤ → Option ℤ → List RuleViolation
unfolding lower_cap
check_cap start increment none = []
check_cap start increment (some cap) =
    if not (ltb_ℤ (pos 0) increment)
    then []
    else if ltb_ℤ cap (start +ℤ increment)
    then cap_unreachable (start +ℤ increment) (start +ℤ increment +ℤ increment) ∷ []
    else when (not (is_zero_ℤ (rem_ℤ (cap -ℤ start) increment)))
        (cap_off_grid (lower_cap start increment cap) (lower_cap start increment cap +ℤ increment))

unfoldable pub validate_rule : RuleInput → List RuleViolation
unfolding check_fat_finger check_cap
validate_rule r =
    when (ltb_ℤ r.start_price_cents (pos 0)) start_price_negative
    ++ when (not (ltb_ℤ (pos 0) r.increment_cents)) increment_not_positive
    ++ when (out_of (pos 30) (pos 86400) r.duration_seconds) duration_out_of_range
    ++ when (out_of (pos 10) (pos 30) r.extend_window_seconds) extend_window_out_of_range
    ++ when (out_of (pos 10) (pos 30) r.extend_by_seconds) extend_by_out_of_range
    ++ when (out_of (pos 1) (pos 10) r.max_extend_count) max_extend_count_out_of_range
    ++ check_fat_finger r.increment_cents r.fat_finger_threshold_cents
    ++ check_cap r.start_price_cents r.increment_cents r.cap_price_cents

pub data BidClass : Type 0 where
  class_accepted class_accepted_sold class_too_low class_increment_mismatch : BidClass
  class_above_cap : BidClass

abbrev above : Option ℤ → ℤ → Bool
above none amount = false
above (some cap) amount = ltb_ℤ cap amount

abbrev equals : Option ℤ → ℤ → Bool
equals none amount = false
equals (some cap) amount = not (ltb_ℤ cap amount) && not (ltb_ℤ amount cap)

-- `none` is the panic of a division by an increment of 0.
unfoldable pub classify_bid_amount : ℤ → ℤ → ℤ → Option ℤ → ℤ → Bool → Option BidClass
classify_bid_amount start current increment cap amount has_accepted_bid =
    let base = if has_accepted_bid then current else start in
    if above cap amount
    then some class_above_cap
    else if ltb_ℤ amount (base +ℤ increment)
    then some class_too_low
    else if is_zero_ℤ increment
    then none
    else if not (is_zero_ℤ (rem_ℤ (amount -ℤ base) increment))
    then some class_increment_mismatch
    else if equals cap amount
    then some class_accepted_sold
    else some class_accepted

-- Times are Unix seconds.
unfoldable pub calculate_extension : ℤ → ℤ → ℤ → ℤ → ℤ → ℤ → ℤ
calculate_extension end now window by count max_count =
    if not (ltb_ℤ count max_count)
    then end
    else if ltb_ℤ window (end -ℤ now)
    then end
    else if ltb_ℤ end (now +ℤ by)
    then now +ℤ by
    else end
