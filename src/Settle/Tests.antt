-- ===== src/Settle/Tests.antt =====
-- The settlement of redisengine/engine.go at the small auction of the scripts' tests.
use live_auction.Common.{ℕ, inl, ◌≡◌, refl, false, none, some, [], arith}
use live_auction.Engine.Data.{active, engine_accepted, StateHash, EngineResult, ok}
use live_auction.Engine.State.{read_hash, seed_hash}
use live_auction.Engine.Place.{place}
use live_auction.Engine.Run.{bid, step}
use live_auction.Engine.Rebuild.{scan_row}
use live_auction.Engine.Tests.{a_hash, fresh, first, first_result}
use live_auction.Settle.Data.{Auction, Bid, Db, Message, Env}
use live_auction.Settle.Rows.{bid_row}
use live_auction.Settle.Attempt.{again, change}
use live_auction.Settle.Apply.{settled_response}
use live_auction.Settle.Worker.{done, settle_payload}
use live_auction.Settle.Written.{Fits}
use live_auction.Settle.Projection.{Mirrors}
use live_auction.Settle.Next.{IsNew, Carries, code_of}
use live_auction.Settle.Decision.{IsClear, settle_payload-Mirrors}
use live_auction.Settle.Once.{with_attempts, settle_payload-twice}
use live_auction.Settle.Accepted.{HasRows, settle_payload-HasRows}
use live_auction.Settle.Forward.{Forward}
use live_auction.Settle.Forward.Call.{settle_payload-Forward}

abbrev pub a_digest : EngineResult → ℕ
a_digest r = r.engine_seq

abbrev pub an_env : Env
an_env = record { now_ms = 70000; new_order_id = 1 }

abbrev pub later_env : Env
later_env = record { now_ms = 90000; new_order_id = 2 }

abbrev pub first_message : Message
first_message = record { id = 1; auction_id = 1; offset = some 0; payload = some first_result }

-- The row of the small auction.
abbrev pub db_row : Auction
db_row = record {
  status = active;
  current_price_cents = 1000;
  current_winner_id = none;
  end_at_ms = 60000;
  extend_count = 0;
  accepted_bid_count = 0;
  seq = 1;
  engine_seq = 0;
  engine_epoch = 1;
  version = 1;
  engine_paused = false;
  engine_pause_reason = none;
}

abbrev pub a_db : Db
a_db = record {
  auction = db_row;
  deposit_rule = record { bps = none; floor_cents = none; cap_cents = none };
  bids = λ _ _. none;
  idem = λ _ _. none;
  events = λ _. none;
  outbox = [];
  order = none;
  end_job = none;
  expire_jobs = λ _. none;
  attempts = [];
  checkpoint = none;
  anomalies = [];
}

pub a_db-Mirrors : Mirrors (read_hash a_hash) a_db.auction
unfolding read_hash seed_hash scan_row
a_db-Mirrors = record {
  status = refl;
  price = refl;
  winner = refl;
  end = refl;
  extend_count = refl;
  count = refl;
  engine_seq = refl;
  engine_epoch = refl;
}

first_answer : (step (bid first) fresh).0 ≡ ok first_result
unfolding step place read_hash seed_hash scan_row
first_answer = refl

first_message-Carries : Carries first_message first_result
unfolding place read_hash seed_hash scan_row
first_message-Carries = record { payload = refl; auction = refl; decided = λ e. ground (arith, e) }

first_message-IsNew : IsNew first_message first_result a_db
first_message-IsNew = record { no_stream = refl; no_offset = refl; no_number = refl }

first_message-IsClear : IsClear first_result a_db
first_message-IsClear = record { no_bid = refl; idem_fits = tt; no_outbox = λ t. refl }

first_message-Fits : Fits first_result a_db
unfolding place read_hash seed_hash scan_row
first_message-Fits = record { fence = refl; no_bid = refl; idem_fits = tt; no_outbox = λ t. refl }

settle_payload-Mirrors_example :
    (h' : StateHash) × ((step (bid first) fresh).1.state ≡ some h')
    × (db' : Db) × (settle_payload a_digest an_env first_message a_db ≡ (done, db'))
    × Mirrors (read_hash h') db'.auction
settle_payload-Mirrors_example =
    settle_payload-Mirrors a_digest an_env first_message (bid first) a_hash fresh first_result a_db
      refl a_db-Mirrors first_answer first_message-Carries first_message-IsNew first_message-IsClear

abbrev pub settled_db : Db
settled_db = (settle_payload a_digest an_env first_message a_db).1

settle_payload-twice_example :
    ((settle_payload a_digest an_env first_message a_db).0 ≡ done)
    × (settle_payload a_digest later_env first_message settled_db
        ≡ (done, with_attempts settled_db (change 1 (again later_env) settled_db.attempts)))
settle_payload-twice_example =
    settle_payload-twice a_digest an_env later_env first_message first_result a_db
      first_message-Carries first_message-IsNew first_message-Fits

-- A decision that skips a number.
abbrev pub skipping : EngineResult
skipping = record first_result { engine_seq = 5 }

abbrev pub skipping_message : Message
skipping_message = record first_message { payload = some skipping }

skipping_message-Carries : Carries skipping_message skipping
unfolding place read_hash seed_hash scan_row
skipping_message-Carries = record {
  payload = refl;
  auction = refl;
  decided = λ e. ground (arith, e);
}

skipping_message-IsNew : IsNew skipping_message skipping a_db
skipping_message-IsNew = record { no_stream = refl; no_offset = refl; no_number = refl }

skipping_epoch : skipping.engine_epoch ≡ 1
unfolding place read_hash seed_hash scan_row
skipping_epoch = refl

-- The table of bids has another request under the first bid's user and client bid id.
abbrev pub old_bid : Bid
old_bid =
    record (bid_row first_result none false none
      (settled_response first_result (code_of first_result.code first_result) 0)) {
        request_hash = 9;
      }

abbrev pub taken_db : Db
taken_db = record a_db { bids = λ _ _. some old_bid }

first_code : first_result.code ≡ engine_accepted
unfolding place read_hash seed_hash scan_row
first_code = refl

settle_payload-HasRows_example :
    ((settle_payload a_digest an_env first_message a_db).0 ≡ done)
    × HasRows first_result a_db (settle_payload a_digest an_env first_message a_db).1
settle_payload-HasRows_example =
    settle_payload-HasRows a_digest an_env first_message first_result a_db first_message-Carries
      first_message-IsNew first_message-Fits (inl first_code)

settle_payload-Forward_example :
    Forward db_row (settle_payload a_digest an_env first_message a_db).1.auction
settle_payload-Forward_example = settle_payload-Forward a_digest an_env first_message a_db
