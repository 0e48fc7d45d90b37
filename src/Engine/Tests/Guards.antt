-- ===== src/Engine/Tests/Guards.antt =====
-- The theorems on the guards of redisengine/engine.go's scripts, at the small auction.
use live_auction.Common.{◌+◌, ◌^◌, ◌<◌, ◌≡◌, refl, true, none, some, ltb, arith}
use live_auction.Common.Int.{pos}
use live_auction.Engine.Data.{PendingConfirm, Keyspace, BidArgs, ConfirmArgs, EngineResult, ok}
use live_auction.Engine.State.{Live, read_hash, seed_hash, is_empty}
use live_auction.Engine.Place.{place, place_verdict, amount_verdict}
use live_auction.Engine.Confirm.{confirm, confirm_verdict}
use live_auction.Engine.Guards.Mirror.{cap_option, class_of_verdict, classify-amount_verdict}
use live_auction.Engine.Guards.Recheck.{confirmed, confirm_verdict-place_verdict}
use live_auction.Engine.Guards.FatFinger.{Allows, confirm-ok_Allows}
use live_auction.Engine.Rebuild.{scan_row}
use live_auction.Rules.{classify_bid_amount}
use live_auction.Rules.Amount.{cap_of}
use live_auction.Engine.Tests.{a_hash, fresh, bid_at, confirm_at, first, ok_or, first_result}

abbrev live : Live
live = read_hash a_hash

live_prices :
    (0 < live.increment)
    × (live.start_price + live.increment < 10 ^ 14)
    × (live.current_price + live.increment < 10 ^ 14)
    × (live.cap < 10 ^ 14)
unfolding read_hash seed_hash scan_row
live_prices = (omega arith, omega arith, omega arith, omega arith)

classify-amount_verdict_example :
    classify_bid_amount
      (pos live.start_price)
      (pos live.current_price)
      (pos live.increment)
      (cap_of (cap_option live.cap))
      (pos 1700)
      (ltb 0 live.accepted_bid_count)
    ≡ some (class_of_verdict live 1700 (amount_verdict live 1700 true))
classify-amount_verdict_example =
    let (up, start, current, cap) = live_prices in
    classify-amount_verdict live 1700 true up start current cap (omega arith)

live_lane : is_empty live.requires_postgres ≡ true
unfolding read_hash seed_hash scan_row
live_lane = refl

-- The first bid, of a member of the room's access list.
abbrev behind_acl : BidArgs
behind_acl = record first { has_acl = true }

confirm_verdict-place_verdict_example :
    confirm_verdict live (confirm_at 55000 7 1 1500)
    ≡ confirmed (place_verdict live behind_acl true)
confirm_verdict-place_verdict_example =
    confirm_verdict-place_verdict live behind_acl (confirm_at 55000 7 1 1500) true refl refl
      live_lane refl live_prices.0

-- The same auction, sent to the PostgreSQL lane.
abbrev jump : BidArgs
jump = bid_at 56000 8 2 9000

abbrev jump_confirm : ConfirmArgs
jump_confirm = confirm_at 57000 8 2 9000

-- The auction with a bid that waits for its confirmation.
abbrev waiting : Keyspace
waiting = (place jump fresh).1

abbrev confirmed_result : EngineResult
confirmed_result = ok_or first_result (confirm jump_confirm waiting).0

confirmed_answer : (confirm jump_confirm waiting).0 ≡ ok confirmed_result
unfolding confirm place read_hash seed_hash scan_row
confirmed_answer = refl

confirm-ok_Allows_example :
    ((pc : PendingConfirm) × (waiting.pending_confirm 8 2 ≡ some pc) × Allows pc jump_confirm)
    × ((confirm jump_confirm waiting).1.pending_confirm 8 2 ≡ none)
confirm-ok_Allows_example = confirm-ok_Allows jump_confirm waiting confirmed_result confirmed_answer
