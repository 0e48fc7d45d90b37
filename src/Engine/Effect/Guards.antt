-- ===== src/Engine/Effect/Guards.antt =====
-- The guards of both scripts let a bid through only where the price rules hold.
use live_auction.Common.{Bool, ◌≡◌, arith}
use live_auction.Engine.Data.{BidArgs, ConfirmArgs}
use live_auction.Engine.State.{Live}
use live_auction.Engine.Place.{take, amount_verdict, place_verdict}
use live_auction.Engine.Confirm.{confirm_verdict}
use live_auction.Engine.Effect.Defs.{CanTake}

pub place_verdict-CanTake :
    (s : Live) (a : BidArgs) (member : Bool) → place_verdict s a member ≡ take → CanTake s a.call
unfolding place_verdict amount_verdict
place_verdict-CanTake s a member h = ground arith

pub confirm_verdict-CanTake :
    (s : Live) (a : ConfirmArgs) → confirm_verdict s a ≡ take → CanTake s a.call
unfolding confirm_verdict
confirm_verdict-CanTake s a h = ground arith
