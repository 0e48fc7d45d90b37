-- ===== src/Engine/Tests.antt =====
-- A small auction in the keys of redisengine/engine.go, and runs of the scripts on it.
mod Runs
mod Guards
mod Rebuild
use live_auction.Common.{
  ℕ, ◌+◌, ◌*◌, ◌^◌, ◌≤◌, ◌<◌, ◌≡◌, ◌≢◌, refl, true, false, Option, none, some, List, [], ◌∷◌, ltb,
  arith,
}
use live_auction.Common.Int.{pos}
use live_auction.Engine.Data.{
  active, ended, manual, engine_paused, idempotency_key_reused, ft, StateHash, IdemHash,
  PendingConfirm, Keyspace, Call, BidArgs, ConfirmArgs, EngineResult, Reply, replay, ok, error,
}
use live_auction.Engine.State.{Live, read_hash, seed_hash, is_empty}
use live_auction.Engine.Store.{base_price}
use live_auction.Engine.Place.{
  fail, take, hold, place, place_verdict, held_result, amount_verdict, leads,
}
use live_auction.Engine.Confirm.{confirm, confirm_verdict}
use live_auction.Engine.Effect.{CanTake, Effect}
use live_auction.Engine.Run.{Op, bid, confirmation, step, run, step-Effect}
use live_auction.Engine.Run.Order.{InOrder, run-InOrder}
use live_auction.Engine.Run.Price.{IsPriced, run-IsPriced}
use live_auction.Engine.Run.Deadline.{IsExtension, run-IsExtension}
use live_auction.Engine.Run.Terminal.{IsFrozen, run-IsFrozen}
use live_auction.Engine.Run.Replay.{IsOther, place-run-place}
use live_auction.Engine.Guards.Mirror.{cap_option, class_of_verdict, classify-amount_verdict}
use live_auction.Engine.Guards.Recheck.{confirmed, confirm_verdict-place_verdict}
use live_auction.Engine.Guards.FatFinger.{Allows, confirm-ok_Allows}
use live_auction.Engine.Rebuild.{
  AuctionRow, loaded, scan_row, load_snapshot, load_snapshot_for_redis_state, write_redis_state,
}
use live_auction.Engine.Rebuild.Ceiling.{IsExtendedFrom, rebuilt_ceiling}
use live_auction.Rules.{classify_bid_amount}
use live_auction.Rules.Amount.{cap_of}

-- An auction with a start price of 10.00, an increment of 5.00, a cap of 100.00 and a fat-finger
-- threshold of 50.00, that has just opened.
abbrev pub a_row : AuctionRow
a_row = record {
  status = active;
  current_price_cents = 1000;
  current_winner_id = none;
  start_price_cents = 1000;
  increment_cents = 500;
  cap_price_cents = some 10000;
  end_at_ms = 60000;
  extend_window_seconds = 10;
  extend_by_seconds = 15;
  max_extend_count = 2;
  extend_count = 0;
  accepted_bid_count = 0;
  seq = 1;
  engine_seq = 0;
  engine_epoch = 1;
  engine_paused = false;
  engine_pause_reason = none;
  fat_finger_threshold_cents = some 5000;
}

abbrev pub a_hash : StateHash
a_hash = seed_hash (scan_row a_row)

abbrev pub no_idem : IdemHash
no_idem = record {
  request_hash = none;
  result_json = none;
  engine_seq = none;
  engine_epoch = none;
  kafka_append_status = none;
  expires_at_ms = none;
  ttl_ms = none;
}

abbrev pub fresh : Keyspace
fresh = record {
  state = some a_hash;
  state_ttl_ms = 0;
  idem = λ _. no_idem;
  pending = λ _. none;
  pending_ttl_ms = 0;
  log = [];
  log_ttl_ms = 0;
  pending_confirm = λ _ _. none;
  members = λ _. true;
}

abbrev pub call_at : ℕ → ℕ → ℕ → ℕ → Call
call_at now user client amount = record {
  now_ms = now;
  auction_id = 1;
  user_id = user;
  client_bid_id = client;
  amount = amount;
  request_hash = amount;
  trace_id = 0;
  bid_id = client;
  state_ttl_ms = 1000;
  idem_ttl_ms = 1000;
}

abbrev pub bid_at : ℕ → ℕ → ℕ → ℕ → BidArgs
bid_at now user client amount = record {
  call = call_at now user client amount;
  state_json = none;
  bid_source = manual;
  has_acl = false;
}

abbrev pub confirm_at : ℕ → ℕ → ℕ → ℕ → ConfirmArgs
confirm_at now user client amount = record {
  call = call_at now user client amount;
  confirm_token = ft client;
}

-- A first bid in the closing window, one that is held back and confirmed, and a low one.
abbrev pub ops : List Op
ops =
    bid (bid_at 55000 7 1 1500)
    ∷ bid (bid_at 56000 8 2 9000)
    ∷ confirmation (confirm_at 57000 8 2 9000)
    ∷ bid (bid_at 58000 7 3 9100)
    ∷ []

abbrev pub run_hash : Option StateHash → Live
run_hash none = read_hash a_hash
run_hash (some h) = read_hash h

ops_price : (run_hash (run ops fresh).state).current_price ≡ 9000
unfolding run step place confirm read_hash seed_hash scan_row
ops_price = refl

ops_end : (run_hash (run ops fresh).state).end_at_ms ≡ 75000
unfolding run step place confirm read_hash seed_hash scan_row
ops_end = refl

abbrev pub first : BidArgs
first = bid_at 55000 7 1 1500

abbrev pub ok_or : EngineResult → Reply → EngineResult
ok_or d (ok result) = result
ok_or d _ = d

-- What the first bid is answered with.
abbrev pub first_result : EngineResult
first_result = ok_or (held_result first (read_hash a_hash) (ft 0)) (place first fresh).0
