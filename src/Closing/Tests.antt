-- ===== src/Closing/Tests.antt =====
-- The end of the small auction of the engine, backend/internal/scheduler/scheduler.go.
use live_auction.Common.{◌≤◌, ◌≡◌, refl, inr, true, false, none, some, [], ◌∷◌, All, arith}
use live_auction.Common.Int.{pos}
use live_auction.Engine.Data.{active, sold, StateHash, Keyspace}
use live_auction.Engine.State.{read_hash, seed_hash, is_active}
use live_auction.Engine.Place.{place}
use live_auction.Engine.Run.{bid, step, run}
use live_auction.Engine.Rebuild.{scan_row}
use live_auction.Engine.Tests.{a_hash, fresh, bid_at, run_hash}
use live_auction.Settle.Data.{Auction}
use live_auction.Closing.Data.{job_pending, job_running, EndDb, EndEnv}
use live_auction.Closing.{fence_auction_for_scheduler, end_auction, process_end_auction, set_pause}
use live_auction.Closing.Still.{IsShut}
use live_auction.Closing.Sealed.{Agrees, process_end_auction-Agrees}

-- User 7 leads with 15.00; the bid is relayed and settled.
abbrev led : Keyspace
led = run (bid (bid_at 40000 7 1 1500) ∷ []) fresh

abbrev led_hash : StateHash
led_hash = elim led.state [ none ↦ a_hash | some h ↦ h ]

abbrev led_row : Auction
led_row = record {
  status = active;
  current_price_cents = 1500;
  current_winner_id = some 7;
  end_at_ms = 60000;
  extend_count = 0;
  accepted_bid_count = 1;
  seq = 2;
  engine_seq = 1;
  engine_epoch = 1;
  version = 2;
  engine_paused = false;
  engine_pause_reason = none;
}

abbrev due_job : EndDb
due_job = record {
  auction = led_row;
  order = none;
  expire_job = none;
  events = [];
  job = record { status = job_running; run_at = 60000; next_attempt_at = 60000 };
}

-- A bid for the last millisecond comes while the hash is paused, and others come too late.
abbrev at_end : EndEnv
at_end = record {
  now = 60010;
  redis_now = 60010;
  order_id = 31;
  deposit_bps = pos 1000;
  deposit_floor_cents = pos 100;
  deposit_cap_cents = pos 100000;
  after_read = bid (bid_at 60005 8 2 2500) ∷ [];
  after_pause = bid (bid_at 60000 8 3 2500) ∷ [];
  after_check = bid (bid_at 60020 8 4 2500) ∷ [];
  relayed = 2;
}

sold_to_7 : (process_end_auction at_end due_job led).0 ≡ end_auction at_end due_job
unfolding process_end_auction end_auction run step place read_hash seed_hash scan_row
sold_to_7 = refl

is_sold_now : (end_auction at_end due_job).auction.status ≡ sold
unfolding end_auction
is_sold_now = refl

-- The price in Redis is not settled yet: the job runs again after 500 ms.
unsettled_waits :
    (process_end_auction at_end
      (record due_job { auction = record led_row { current_price_cents = 1000 } })
      led).0.job
    ≡ record { status = job_pending; run_at = 60510; next_attempt_at = 60510 }
unfolding process_end_auction end_auction run step place read_hash seed_hash scan_row
unsettled_waits = refl

-- A pause that the settlement had set is lifted by the check of the scheduler.
pause_lifted :
    (run_hash
      (fence_auction_for_scheduler at_end
        (record led_row { current_price_cents = 1000 })
        (set_pause true "SETTLEMENT_IDENTITY_CONFLICT" led)).1.state).paused
    ≡ false
unfolding fence_auction_for_scheduler run step place read_hash seed_hash scan_row
pause_lifted = refl

led_state : led.state ≡ some led_hash
unfolding run step place read_hash seed_hash scan_row
led_state = refl

led_hash-IsShut : All (IsShut (read_hash led_hash)) at_end.after_read
unfolding run step place read_hash seed_hash scan_row
led_hash-IsShut = (inr (omega arith), tt)

led_ends : is_active (process_end_auction at_end due_job led).0.auction.status ≡ false
unfolding process_end_auction end_auction run step place read_hash seed_hash scan_row
led_ends = refl

process_end_auction-Agrees_example :
    ((process_end_auction at_end due_job led).0 ≡ end_auction at_end due_job)
    × (60000 ≤ 60010)
    × (h' : StateHash) × ((run
          (bid (bid_at 60030 8 5 2500) ∷ [])
          (process_end_auction at_end due_job led).1).state
        ≡ some h')
    × ((read_hash h').paused ≡ true)
    × Agrees led_row (read_hash h')
process_end_auction-Agrees_example =
    process_end_auction-Agrees at_end due_job led_hash led (bid (bid_at 60030 8 5 2500) ∷ [])
      led_state led_hash-IsShut refl led_ends
