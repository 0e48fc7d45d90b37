-- ===== src/Engine/Tests/Runs.antt =====
-- The theorems on the runs of redisengine/engine.go's scripts, at the small auction.
use live_auction.Common.{◌<◌, ◌≡◌, ◌≢◌, refl, some, List, [], ◌∷◌, arith}
use live_auction.Engine.Data.{active, ended, StateHash, Keyspace, BidArgs, replay, ok}
use live_auction.Engine.State.{read_hash, seed_hash}
use live_auction.Engine.Place.{place}
use live_auction.Engine.Run.{Op, bid, confirmation, step, run}
use live_auction.Engine.Run.Decide.{IsDone, IsStill, step-IsStill}
use live_auction.Engine.Run.Order.{InOrder, run-InOrder}
use live_auction.Engine.Run.Price.{IsPriced, run-IsPriced}
use live_auction.Engine.Run.Deadline.{IsExtension, run-IsExtension}
use live_auction.Engine.Run.Terminal.{IsFrozen, run-IsFrozen}
use live_auction.Engine.Run.Replay.{IsOther, place-run-place}
use live_auction.Engine.Rebuild.{scan_row}
use live_auction.Engine.Tests.{a_row, a_hash, fresh, bid_at, confirm_at, ops, first, first_result}

fresh-InOrder : InOrder 0 a_hash fresh
unfolding read_hash seed_hash scan_row
fresh-InOrder = record { here = refl; counted = refl; numbered = tt; awaiting = tt }

run-InOrder_example : (h : StateHash) × InOrder 0 h (run ops fresh)
run-InOrder_example = run-InOrder 0 ops a_hash fresh fresh-InOrder

fresh-increment : 0 < (read_hash a_hash).increment
unfolding read_hash seed_hash scan_row
fresh-increment = omega arith

fresh-IsPriced : IsPriced (read_hash a_hash)
unfolding read_hash seed_hash scan_row
fresh-IsPriced = ground arith

run-IsPriced_example : (h : StateHash) × ((run ops fresh).state ≡ some h) × IsPriced (read_hash h)
run-IsPriced_example = run-IsPriced ops a_hash fresh refl fresh-increment fresh-IsPriced

run-IsExtension_example :
    (h : StateHash) × ((run ops fresh).state ≡ some h)
    × IsExtension (read_hash a_hash) (read_hash h)
run-IsExtension_example = run-IsExtension ops a_hash fresh refl

abbrev over_hash : StateHash
over_hash = seed_hash (scan_row (record a_row { status = ended }))

abbrev over : Keyspace
over = record fresh { state = some over_hash }

over_status : (read_hash over_hash).status ≢ active
unfolding read_hash seed_hash scan_row
over_status e = ground arith

run-IsFrozen_example :
    (h : StateHash) × ((run ops over).state ≡ some h) × IsFrozen (read_hash over_hash) (read_hash h)
run-IsFrozen_example = run-IsFrozen ops over_hash over refl over_status

first_answer : (place first fresh).0 ≡ ok first_result
unfolding place read_hash seed_hash scan_row
first_answer = refl

abbrev after : List Op
after = bid (bid_at 56000 8 2 9000) ∷ confirmation (confirm_at 57000 8 2 9000) ∷ []

after-IsOther : IsOther first.client_bid_id after
after-IsOther = (λ e. omega (arith, e), (λ e. omega (arith, e), tt))

abbrev again : BidArgs
again = bid_at 59000 7 1 1500

place-run-place_example :
    place again (run after (place first fresh).1)
    ≡ (replay first_result, run after (place first fresh).1)
place-run-place_example =
    place-run-place first again after a_hash fresh first_result refl first_answer after-IsOther refl
      refl

abbrev changed : BidArgs
changed = bid_at 59000 7 1 2000

changed_request : changed.request_hash ≢ first.request_hash
changed_request e = omega (arith, e)

first-IsDone : IsDone ((place first fresh).1.idem 1)
unfolding place read_hash seed_hash scan_row
first-IsDone = record { hashed = (1500, refl); decided = (first_result, refl, refl) }

step-IsStill_example :
    IsStill
      (place first fresh).1
      (step (bid again) (place first fresh).1).0
      (step (bid again) (place first fresh).1).1
step-IsStill_example = step-IsStill (bid again) (place first fresh).1 first-IsDone
