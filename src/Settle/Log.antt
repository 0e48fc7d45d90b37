-- ===== src/Settle/Log.antt =====
-- All decisions of a run of redisengine/engine.go's scripts, settled in their order.
pub mod World
pub mod Replayed
pub mod Tests
use live_auction.Common.{ℕ, some, List, [], ◌∷◌, if◌then◌else◌}
use live_auction.Engine.Data.{EngineResult, Keyspace, Reply, replay, ok, error}
use live_auction.Engine.Confirm.{is_held}
use live_auction.Engine.Run.{Op, step}
use live_auction.Settle.Data.{Db, Message, Env}
use live_auction.Settle.Worker.{settle_payload}

-- A reply that is a decision adds it to the log.
abbrev pub add_decided : Reply → List EngineResult → List EngineResult
add_decided (ok r) rest = if is_held r.code then rest else r ∷ rest
add_decided (replay _) rest = rest
add_decided (error _ _) rest = rest

-- The decisions of a run, the first one first.
unfoldable pub decisions : List Op → Keyspace → List EngineResult
decisions [] ks = []
decisions (o ∷ os) ks = let rest = decisions os (step o ks).1 in add_decided (step o ks).0 rest

-- The ledger message of a decision. Stream ids and offsets are those of the decisions.
abbrev pub message_of : EngineResult → Message
message_of r = record {
  id = r.engine_seq;
  auction_id = r.auction_id;
  offset = some r.engine_seq;
  payload = some r;
}

-- One message after the other; `env` is the clock and the new order id at each.
unfoldable pub settle_all : (EngineResult → ℕ) → (EngineResult → Env) → List EngineResult → Db → Db
settle_all digest env [] db = db
settle_all digest env (r ∷ rs) db =
    settle_all digest env rs (settle_payload digest (env r) (message_of r) db).1
