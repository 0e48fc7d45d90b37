-- ===== src/Engine/Tests/Rebuild.antt =====
-- The theorems on the rebuilt hash of redisengine/engine.go, at the small auction.
use live_auction.Common.{◌+◌, ◌*◌, ◌≡◌, refl, some, arith}
use live_auction.Engine.State.{read_hash}
use live_auction.Engine.Rebuild.{
  AuctionRow, loaded, scan_row, load_snapshot, load_snapshot_for_redis_state, write_redis_state,
}
use live_auction.Engine.Rebuild.Ceiling.{IsExtendedFrom, rebuilt_ceiling}
use live_auction.Engine.Tests.{a_row}

-- The same auction after one extension of an end that was 45000.
abbrev extended_row : AuctionRow
extended_row = record a_row { extend_count = 1 }

extended-IsExtendedFrom : IsExtendedFrom 45000 extended_row
extended-IsExtendedFrom = record { end = refl; few = omega arith }

rebuilt_ceiling_example :
    (read_hash (write_redis_state (load_snapshot_for_redis_state extended_row))).absolute_end_ms
    ≡ 45000 + 2 * (15 * 1000) + 1 * (15 * 1000)
rebuilt_ceiling_example = rebuilt_ceiling 45000 extended_row extended-IsExtendedFrom

extended_load : load_snapshot (some extended_row) ≡ loaded (scan_row extended_row)
unfolding load_snapshot
extended_load = refl
