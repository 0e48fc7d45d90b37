-- ===== src/Rules/Tests.antt =====
-- Runs of the functions of backend/internal/auction/rules.go, and its theorems at concrete rules.
use live_auction.Common.{ℕ, ◌^◌, ◌<◌, ◌≡◌, refl, true, none, some, [], ◌∷◌, arith}
use live_auction.Common.Int.{pos, ◌+ℤ◌, ◌-ℤ◌, rem_ℤ}
use live_auction.Rules.{
  RuleInput, cap_off_grid, check_cap, validate_rule, class_too_low, classify_bid_amount,
}
use live_auction.Rules.Validate.{IsValidRule, validate_rule-IsValidRule}

abbrev a_rule : RuleInput
a_rule = record {
  start_price_cents = pos 0;
  increment_cents = pos 1000;
  cap_price_cents = some (pos 50000);
  duration_seconds = pos 300;
  extend_window_seconds = pos 15;
  extend_by_seconds = pos 15;
  max_extend_count = pos 3;
  fat_finger_threshold_cents = some (pos 20000);
}

a_rule_is_clean : validate_rule a_rule ≡ []
unfolding validate_rule ◌+ℤ◌ ◌-ℤ◌ rem_ℤ
a_rule_is_clean = refl

cap_off_grid_run :
    check_cap (pos 0) (pos 1000) (some (pos 1500)) ≡ cap_off_grid (pos 1000) (pos 2000) ∷ []
unfolding check_cap ◌+ℤ◌ ◌-ℤ◌ rem_ℤ
cap_off_grid_run = refl

too_low_run :
    classify_bid_amount (pos 0) (pos 3000) (pos 1000) none (pos 3500) true ≡ some class_too_low
unfolding classify_bid_amount ◌+ℤ◌
too_low_run = refl

capped : (c : ℕ) → a_rule.cap_price_cents ≡ some (pos c) → c < 2 ^ 61
capped c e = ground arith

validate_rule-IsValidRule_example : IsValidRule a_rule
validate_rule-IsValidRule_example =
    validate_rule-IsValidRule a_rule (omega arith) (omega arith) capped a_rule_is_clean
