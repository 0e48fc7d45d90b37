-- ===== src/Deposit/Tests.antt =====
-- Runs of `CalculateDeposit` of backend/internal/auction/deposit.go, and its bounds at one order.
use live_auction.Common.{◌/◌, ◌≤◌, ◌≡◌, refl, arith}
use live_auction.Common.Int.{pos, ◌*ℤ◌, div_ℤ}
use live_auction.Deposit.{calculate_deposit}
use live_auction.Deposit.Bounds.{min, deposit, calculate_deposit_bounds}

deposit_of_500_000 :
    calculate_deposit (pos 500000) (pos 1000) (pos 10000) (pos 100000000) ≡ pos 50000
unfolding calculate_deposit ◌*ℤ◌ div_ℤ
deposit_of_500_000 = refl

deposit_of_floor : calculate_deposit (pos 1500) (pos 1000) (pos 10000) (pos 100000000) ≡ pos 750
unfolding calculate_deposit ◌*ℤ◌ div_ℤ
deposit_of_floor = refl

calculate_deposit_bounds_example :
    (calculate_deposit (pos 500000) (pos 1000) (pos 10000) (pos 100000000)
      ≡ pos (deposit 500000 1000 10000 100000000))
    × (deposit 500000 1000 10000 100000000 ≤ 500000 / 2)
    × (deposit 500000 1000 10000 100000000 ≤ 100000000)
    × (min 10000 (min 100000000 (500000 / 2)) ≤ deposit 500000 1000 10000 100000000)
calculate_deposit_bounds_example =
    calculate_deposit_bounds 500000 1000 10000 100000000 (omega arith)
