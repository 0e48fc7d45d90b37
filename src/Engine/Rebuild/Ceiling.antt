-- ===== src/Engine/Rebuild/Ceiling.antt =====
-- The ceiling on extensions that a cold start and a rebuild of redisengine/engine.go give.
use live_auction.Common.{ℕ, ◌+◌, ◌-◌, ◌*◌, ◌≤◌, ◌≡◌, ◌∙◌, sym, ap, some, arith}
use native.Mathlib.Nat.{add-mul}
use live_auction.Engine.Data.{Snapshot}
use live_auction.Engine.State.{seed_hash, read_hash}
use live_auction.Engine.Rebuild.{
  AuctionRow, loaded, load_snapshot, load_snapshot_for_redis_state, write_redis_state,
}

-- A row whose end has been pushed by `extend_by` for each of its extensions from `original`.
pub record IsExtendedFrom (original : ℕ) (r : AuctionRow) : Type 0 where
  pub end : r.end_at_ms ≡ original + r.extend_count * (r.extend_by_seconds * 1000)
  pub few : r.extend_count ≤ r.max_extend_count

multiple_split : (m k b : ℕ) → k ≤ m → (m - k) * b + k * b ≡ m * b
multiple_split m k b h =
    let gap : m ≡ m - k + k = omega arith in sym (ap (λ (t : ℕ). t * b) gap ∙ add-mul (m - k) k b)

-- The ceiling after a rebuild lies `extend_by` above the original end for each extension allowed, and
-- as often again as there have been extensions: only an auction that was never extended gets the
-- documented `original_end + max_extend_count * extend_by`.
pub rebuilt_ceiling :
    (original : ℕ) (r : AuctionRow)
    → IsExtendedFrom original r
    → (read_hash (write_redis_state (load_snapshot_for_redis_state r))).absolute_end_ms
      ≡ original
        + r.max_extend_count * (r.extend_by_seconds * 1000)
        + r.extend_count * (r.extend_by_seconds * 1000)
unfolding read_hash write_redis_state load_snapshot_for_redis_state
rebuilt_ceiling original r v = omega (
  arith,
  v.end,
  multiple_split r.max_extend_count r.extend_count (r.extend_by_seconds * 1000) v.few,
)

-- The hash that a rebuild writes is the one that a cold start seeds from the same row, for a row with
-- no more extensions than its rule allows; so both have the same ceiling.
rebuild-eq-seed :
    (r : AuctionRow) (s : Snapshot)
    → r.extend_count ≤ r.max_extend_count
    → load_snapshot (some r) ≡ loaded s
    → write_redis_state (load_snapshot_for_redis_state r) ≡ seed_hash s
unfolding load_snapshot load_snapshot_for_redis_state write_redis_state seed_hash
rebuild-eq-seed r s few e =
    ground
      (arith, e, multiple_split r.max_extend_count r.extend_count (r.extend_by_seconds * 1000) few)
