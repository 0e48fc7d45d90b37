-- ===== src/Settle/Log/Tests.antt =====
-- The decisions of a run of redisengine/engine.go's scripts, settled at the small auction.
use live_auction.Common.{◌≡◌, refl, length}
use live_auction.Engine.Data.{StateHash, EngineResult}
use live_auction.Engine.State.{read_hash, seed_hash}
use live_auction.Engine.Place.{place}
use live_auction.Engine.Confirm.{confirm}
use live_auction.Engine.Rebuild.{scan_row}
use live_auction.Engine.Run.{run, step}
use live_auction.Engine.Tests.{a_hash, fresh, ops}
use live_auction.Settle.Data.{Env}
use live_auction.Settle.Log.{decisions, settle_all}
use live_auction.Settle.Log.World.{World}
use live_auction.Settle.Log.Replayed.{settle_all-World}
use live_auction.Settle.Tests.{a_digest, an_env, a_db, a_db-Mirrors}

-- Of the four calls one is held back, and the last is a rejection.
decisions_of_ops : length (decisions ops fresh) ≡ 3
unfolding decisions step place confirm read_hash seed_hash scan_row
decisions_of_ops = refl

pub a_db-World : World fresh a_hash a_db
unfolding read_hash seed_hash scan_row
a_db-World = record {
  here = refl;
  mirrors = a_db-Mirrors;
  bids = λ u j e. absurd (cc);
  idem = λ u j e. absurd (cc);
  outbox = λ seq t later. refl;
  attempts = tt;
}

abbrev pub env_of : EngineResult → Env
env_of _ = an_env

settle_all-World_example :
    (h' : StateHash) × World
      (run ops fresh)
      h'
      (settle_all a_digest env_of (decisions ops fresh) a_db)
settle_all-World_example = settle_all-World a_digest env_of ops a_hash fresh a_db a_db-World
