-- ===== src/Relay/Tests.antt =====
-- The decisions of the small auction through two passes of the relay of redisengine/engine.go, one of which fails.
use live_auction.Common.{
  ℕ, ◌+◌, ◌*◌, ◌≤◌, ◌≡◌, refl, false, none, some, List, [], ◌∷◌, ◌++◌, All, length, map, Option,
  arith,
}
use live_auction.Engine.Data.{append_acked, append_unknown, AppendStatus, StateHash}
use live_auction.Engine.State.{read_hash, seed_hash}
use live_auction.Engine.Place.{place}
use live_auction.Engine.Confirm.{confirm}
use live_auction.Engine.Rebuild.{scan_row}
use live_auction.Engine.Run.{Op, bid, run, step}
use live_auction.Engine.Tests.{a_hash, fresh, ops, bid_at}
use live_auction.Settle.Log.{settle_all}
use live_auction.Settle.Log.World.{World}
use live_auction.Settle.Log.Tests.{a_db-World, env_of}
use live_auction.Settle.Tests.{a_digest, a_db}
use live_auction.Relay.Data.{
  at_rest, Relay, produced, produce_failed, RelayOp, engine_op, get_cursor, read_stream, crash,
  produce, mark_acks, wait_open, wait_check, wait_take,
}
use live_auction.Relay.{has_mismatch, step_relay, run_relay}
use live_auction.Relay.Prefix.{arrived}
use live_auction.Relay.Fits.{IsRelayed}
use live_auction.Relay.Ledger.{run_relay-IsRelayed}
use live_auction.Relay.Acked.{IsTold}
use live_auction.Relay.Told.{run_relay-IsTold}
use live_auction.Relay.Turn.{InTurn}
use live_auction.Relay.Ordered.{Stops, run_relay-InTurn}
use live_auction.Relay.Live.{passes_ops}
use live_auction.Relay.Settled.{turn_onto, passes-World}

abbrev quiet_relay : Relay
quiet_relay = record {
  auction_id = 1;
  keys = fresh;
  kafka = [];
  cursor = 0;
  unhealthy = false;
  pass = λ w. at_rest;
  waiter = λ i. none;
}

-- The first pass writes one message and fails; a call that waited is answered at once. The next pass writes
-- the batch twice, marks it and crashes before it moves the cursor; a last one repeats it.
abbrev trace : List RelayOp
trace =
    map engine_op ops
    ++ (wait_open 0 1
        ∷ get_cursor 0
        ∷ read_stream 0
        ∷ produce 0 (produce_failed ((1, 1) ∷ []))
        ∷ wait_take 0
        ∷ get_cursor 1
        ∷ read_stream 1
        ∷ engine_op (bid (bid_at 58500 7 4 9500))
        ∷ produce 1 (produced ((3, 1) ∷ []))
        ∷ wait_open 1 2
        ∷ mark_acks 1 60000 none
        ∷ wait_take 1
        ∷ crash 1
        ∷ wait_open 2 3
        ∷ wait_check 2
        ∷ [])
    ++ passes_ops 1 0 61000

abbrev answer_of : ℕ → Relay → Option AppendStatus
answer_of i s = elim (s.waiter i) [ none ↦ none | some w ↦ w.answer ]

answered_at_once : answer_of 0 (run_relay trace quiet_relay) ≡ some append_unknown
unfolding run_relay step_relay step place confirm read_hash seed_hash scan_row
answered_at_once = refl

signalled : answer_of 1 (run_relay trace quiet_relay) ≡ some append_acked
unfolding run_relay step_relay step place confirm read_hash seed_hash scan_row
signalled = refl

seen_marked : answer_of 2 (run_relay trace quiet_relay) ≡ some append_acked
unfolding run_relay step_relay step place confirm read_hash seed_hash scan_row
seen_marked = refl

-- Kafka has eleven messages of the four decisions.
repeated : length (run_relay trace quiet_relay).kafka ≡ 11
unfolding run_relay step_relay step place confirm read_hash seed_hash scan_row
repeated = refl

arrived_once : length (arrived 0 (run_relay trace quiet_relay).kafka) ≡ 4
unfolding run_relay step_relay step place confirm read_hash seed_hash scan_row
arrived_once = refl

quiet_relay-IsRelayed : IsRelayed 0 0 quiet_relay
unfolding read_hash seed_hash scan_row
quiet_relay-IsRelayed = record {
  counted = record { hash = (a_hash, refl, refl); numbered = tt };
  ledger = record { bound = omega arith; same = refl; known = tt };
  cursor = omega arith;
  passes = λ w. tt;
}

quiet_relay-IsTold : IsTold quiet_relay
quiet_relay-IsTold = record {
  marked = λ j h. absurd (cc);
  passes = λ w. tt;
  waiters = λ i w h. absurd (cc);
}

run_relay-IsRelayed_example : (m : ℕ) × (0 ≤ m) × IsRelayed 0 m (run_relay trace quiet_relay)
run_relay-IsRelayed_example = run_relay-IsRelayed 0 0 trace quiet_relay quiet_relay-IsRelayed

run_relay-IsTold_example : IsTold (run_relay trace quiet_relay)
run_relay-IsTold_example = run_relay-IsTold trace quiet_relay quiet_relay-IsTold

-- A pass has failed after one message, and another has written the batch and marked its records ACKED,
-- but crashed before it moved the cursor; a bid came between.
abbrev work : List RelayOp
work =
    map engine_op ops
    ++ (get_cursor 0
        ∷ read_stream 0
        ∷ produce 0 (produce_failed ((1, 1) ∷ []))
        ∷ get_cursor 1
        ∷ read_stream 1
        ∷ engine_op (bid (bid_at 58500 7 4 9500))
        ∷ produce 1 (produced ((3, 1) ∷ []))
        ∷ mark_acks 1 60000 none
        ∷ crash 1
        ∷ [])

abbrev work_calls : List Op
work_calls = ops ++ (bid (bid_at 58500 7 4 9500) ∷ [])

-- The relay in the middle of its work.
abbrev working_relay : Relay
working_relay = run_relay work quiet_relay

working_relay-IsRelayed : (n : ℕ) × (0 ≤ n) × IsRelayed 0 n working_relay
working_relay-IsRelayed = run_relay-IsRelayed 0 0 work quiet_relay quiet_relay-IsRelayed

work-Stops : All Stops work
work-Stops = (tt, (tt, (tt, (tt, (tt, (tt, (refl, (tt, (tt, (tt, (tt, (tt, (tt, tt)))))))))))))

same_log : working_relay.keys.log ≡ (run work_calls fresh).log
unfolding run_relay step_relay run step place confirm read_hash seed_hash scan_row
same_log = refl

at_work :
    (working_relay.pass 0 ≡ at_rest)
    × (has_mismatch working_relay.auction_id working_relay.keys.log ≡ false)
    × (length working_relay.keys.log ≤ working_relay.cursor + 512 * 1)
unfolding run_relay step_relay run step place confirm read_hash seed_hash scan_row
at_work = (refl, refl, omega arith)

-- A batch in two requests, of which only the second is written: its messages wait for the first.
abbrev skipping : List RelayOp
skipping =
    map engine_op ops
    ++ (get_cursor 0 ∷ read_stream 0 ∷ produce 0 (produce_failed ((1, 0) ∷ (2, 1) ∷ [])) ∷ [])

skipping_waits :
    (length (run_relay skipping quiet_relay).kafka ≡ 2)
    × (arrived 0 (run_relay skipping quiet_relay).kafka ≡ [])
unfolding run_relay step_relay step place confirm read_hash seed_hash scan_row
skipping_waits = (refl, refl)

run_relay-InTurn_example : InTurn 0 (run_relay work quiet_relay).kafka
run_relay-InTurn_example = run_relay-InTurn 0 0 work quiet_relay quiet_relay-IsRelayed tt work-Stops

passes-World_example :
    (h' : StateHash) × World (run work_calls fresh) h' (
      settle_all a_digest env_of
        (turn_onto (arrived 0 (run_relay (passes_ops 1 0 61000) working_relay).kafka) [])
        a_db)
passes-World_example =
    passes-World a_digest env_of work_calls a_hash fresh a_db 0 working_relay-IsRelayed.0 1 0 61000
      working_relay a_db-World refl same_log working_relay-IsRelayed.2 at_work.0 at_work.1 at_work.2
