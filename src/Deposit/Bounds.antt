-- ===== src/Deposit/Bounds.antt =====
-- The bounds of `CalculateDeposit` of backend/internal/auction/deposit.go.
use live_auction.Common.{ℕ, ◌*◌, ◌/◌, ◌^◌, ◌≤◌, ◌<◌, ◌≡◌, ltb, if◌then◌else◌, arith}
use live_auction.Common.Int.{pos, *ℤ_pos, div_ℤ}
use live_auction.Deposit.{calculate_deposit}

abbrev pub min : ℕ → ℕ → ℕ
min a b = if ltb a b then a else b

abbrev pub max : ℕ → ℕ → ℕ
max a b = if ltb b a then a else b

-- The deposit over natural numbers: the share of the amount, at least the floor and at most the cap, of
-- which neither counts beyond half of the amount.
abbrev pub deposit : ℕ → ℕ → ℕ → ℕ → ℕ
deposit amount bps floor cap =
    min (max (amount * bps / 10000) (min floor (amount / 2))) (min cap (amount / 2))

div_ℤ_pos : (a b : ℕ) → div_ℤ (pos a) b ≡ pos (a / b)
unfolding div_ℤ
div_ℤ_pos a b = ground arith

-- Where the share of the amount is computed within `int64`, the deposit is the one over natural
-- numbers, at most half of the amount and at most the cap, and at least the floor as far as the cap and
-- half of the amount allow it.
pub calculate_deposit_bounds :
    (amount bps floor cap : ℕ)
    → amount * bps < 2 ^ 63
    → (calculate_deposit (pos amount) (pos bps) (pos floor) (pos cap)
        ≡ pos (deposit amount bps floor cap))
      × (deposit amount bps floor cap ≤ amount / 2)
      × (deposit amount bps floor cap ≤ cap)
      × (min floor (min cap (amount / 2)) ≤ deposit amount bps floor cap)
unfolding calculate_deposit
calculate_deposit_bounds amount bps floor cap fits = (
  ground (arith, *ℤ_pos amount bps fits, div_ℤ_pos (amount * bps) 10000, div_ℤ_pos amount 2),
  ground arith,
  ground arith,
  ground arith,
)
