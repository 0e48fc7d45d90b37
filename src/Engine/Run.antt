-- ===== src/Engine/Run.antt =====
-- The calls of the two decision scripts of redisengine/engine.go in the order in which Redis runs
-- them, over the keys of one auction.
pub mod Order
pub mod Price
pub mod Deadline
pub mod Terminal
pub mod Raise
pub mod Replay
pub mod Decide
use live_auction.Common.{◌≡◌, some, List, [], ◌∷◌}
use live_auction.Engine.Data.{StateHash, Keyspace, Call, BidArgs, ConfirmArgs, Reply}
use live_auction.Engine.Place.{place}
use live_auction.Engine.Confirm.{confirm}
use live_auction.Engine.Effect.{Effect, place-Effect, confirm-Effect}

pub data Op : Type 0 where
  bid : BidArgs → Op
  confirmation : ConfirmArgs → Op

abbrev pub call_of : Op → Call
call_of (bid a) = a.call
call_of (confirmation a) = a.call

unfoldable pub step : Op → Keyspace → Reply × Keyspace
step (bid a) ks = place a ks
step (confirmation a) ks = confirm a ks

-- The keys after a list of calls.
unfoldable pub run : List Op → Keyspace → Keyspace
run [] ks = ks
run (o ∷ os) ks = run os (step o ks).1

-- Every call of either script on a hash that is there decides nothing, rejects, or accepts a bid
-- that meets the price rules, as `Effect` says.
pub step-Effect :
    (o : Op) (h : StateHash) (ks : Keyspace)
    → ks.state ≡ some h
    → let (r, ks') = step o ks in Effect (call_of o) ks h r ks'
unfolding step
step-Effect (bid a) h ks e = place-Effect a h ks e
step-Effect (confirmation a) h ks e = confirm-Effect a h ks e
