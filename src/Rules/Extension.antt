-- ===== src/Rules/Extension.antt =====
-- `CalculateExtension` of backend/internal/auction/rules.go.
use live_auction.Common.{ℕ, ◌+◌, ◌^◌, ◌≤◌, ◌<◌, ◌≡◌, ◌⊎◌, arith}
use live_auction.Common.Int.{pos, +ℤ_pos, -ℤ_pos}
use live_auction.Rules.{calculate_extension}

-- The new end is the old one, or it is `by` after a bid in the window of an auction with an extension
-- left; it is never earlier.
calculate_extension_bounds :
    (end now window by count max_count : ℕ)
    → now ≤ end
    → end < 2 ^ 62
    → by < 2 ^ 62
    → (calculate_extension (pos end) (pos now) (pos window) (pos by) (pos count) (pos max_count)
        ≡ pos end)
      ⊎ ((calculate_extension (pos end) (pos now) (pos window) (pos by) (pos count) (pos max_count)
            ≡ pos (now + by))
          × (end < now + by)
          × (end ≤ now + window)
          × (count < max_count))
unfolding calculate_extension
calculate_extension_bounds end now window by count max_count h e b =
    ground (arith, +ℤ_pos now by, -ℤ_pos end now)
