-- ===== src/Engine/Guards/Recheck.antt =====
-- What the confirm script of redisengine/engine.go checks again, and what it does not.
use live_auction.Common.{◌<◌, ◌≡◌, Bool, true, false, ◌&&◌, not, arith}
use live_auction.Engine.Data.{manual, engine_paused, engine_reconciling, BidArgs, ConfirmArgs}
use live_auction.Engine.State.{is_empty, Live}
use live_auction.Engine.Place.{Verdict, fail, hold, take, leads, amount_verdict, place_verdict}
use live_auction.Engine.Confirm.{confirm_verdict}
use live_auction.Engine.Effect.{CanTake}

-- A bid's verdict once its confirmation has come: what was held is taken. The answer for a
-- reconciling auction carries no reason.
abbrev pub confirmed : Verdict → Verdict
confirmed hold = take
confirmed (fail engine_reconciling _) = fail engine_reconciling ""
confirmed v = v

-- Where the auction needs no PostgreSQL path, the bid has no ACL key or a member behind it, and the
-- increment is positive, a confirmation is judged as the manual bid itself would be, but is not held.
pub confirm_verdict-place_verdict :
    (s : Live) (a : BidArgs) (k : ConfirmArgs) (member : Bool)
    → a.call ≡ k.call
    → a.bid_source ≡ manual
    → is_empty s.requires_postgres ≡ true
    → (a.has_acl && not member) ≡ false
    → 0 < s.increment
    → confirm_verdict s k ≡ confirmed (place_verdict s a member)
unfolding confirm_verdict place_verdict amount_verdict
confirm_verdict-place_verdict s a k member e m r acl p = ground arith

-- A confirmation that meets the price rules is accepted although the auction requires the PostgreSQL
-- path, where the bid script answers ENGINE_PAUSED.
confirm_ignores_requires_postgres :
    (s : Live) (a : BidArgs) (k : ConfirmArgs) (member : Bool)
    → CanTake s k.call
    → leads s k.user_id ≡ false
    → is_empty s.requires_postgres ≡ false
    → (place_verdict s a member ≡ fail engine_paused s.requires_postgres)
      × (confirm_verdict s k ≡ take)
unfolding confirm_verdict place_verdict
confirm_ignores_requires_postgres s a k member can l r = ground arith
