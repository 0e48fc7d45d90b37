-- ===== src/Deposit.antt =====
-- The deposit on an order, `CalculateDeposit` of backend/internal/auction/deposit.go, over `int64`.
pub mod Bounds
mod Tests
use live_auction.Common.{not, if◌then◌else◌}
use live_auction.Common.Int.{ℤ, pos, ltb_ℤ, ◌*ℤ◌, div_ℤ}

abbrev pub min_int64 : ℤ → ℤ → ℤ
min_int64 a b = if ltb_ℤ a b then a else b

abbrev pub max_int64 : ℤ → ℤ → ℤ
max_int64 a b = if ltb_ℤ b a then a else b

unfoldable pub calculate_deposit : ℤ → ℤ → ℤ → ℤ → ℤ
calculate_deposit amount bps floor cap =
    if not (ltb_ℤ (pos 0) amount)
    then pos 0
    else let raw = div_ℤ (amount *ℤ bps) 10000 in
      let half = div_ℤ amount 2 in
      min_int64 (max_int64 raw (min_int64 floor half)) (min_int64 cap half)
