-- ===== src/Relay/Ledger.antt =====
-- Any passes of relayAuctionLogBatch in redisengine/engine.go, crashes and repetitions included, and what they
-- leave in Kafka.
use live_auction.Common.{ℕ, ◌≤◌, ◌≡◌, refl, inl, inr, List, [], ◌∷◌, arith}
use live_auction.Engine.Run.{Op, step}
use live_auction.Relay.Data.{
  at_rest, Relay, RelayOp, engine_op, get_cursor, read_stream, crash, produce, mark_acks, advance,
  wait_open, wait_check, wait_take, wait_timeout,
}
use live_auction.Relay.{step_relay, run_relay}
use live_auction.Relay.Prefix.{HasOldest, grow-HasOldest}
use live_auction.Relay.Fits.{IsRelayed, PassFits-grow, Grown, step-IsCounted}
use live_auction.Relay.Commands.{
  Onward, pass-Onward, on_get_cursor-Onward, on_read_stream-Onward, on_produce-Onward,
  on_mark-Onward, on_advance-Onward,
}

-- A waiting call has no part in it.
still-Onward :
    (base n : ℕ) (s s' : Relay)
    → IsRelayed base n s
    → (s'.keys ≡ s.keys) × (s'.kafka ≡ s.kafka) × (s'.cursor ≡ s.cursor) × (s'.pass ≡ s.pass)
    → Onward base n s'
still-Onward base n s s' v (keys, kafka, cursor, pass) = (
  n,
  omega arith,
  record {
    counted = rw keys v.counted;
    ledger = rw (keys, kafka) v.ledger;
    cursor = rw cursor v.cursor;
    passes = rw (keys, pass) v.passes;
  },
)

engine-Onward :
    (base n : ℕ) (o : Op) (s : Relay)
    → IsRelayed base n s
    → Onward base n (record s { keys = (step o s.keys).1 })
engine-Onward base n o s v =
    let (counted, grown) = step-IsCounted base o s.keys v.counted in
    (
      n,
      omega arith,
      record {
        counted = counted;
        ledger = grow grown;
        cursor = v.cursor;
        passes = λ w. PassFits-grow n n s.keys.log _ (s.pass w) (omega arith) grown (v.passes w);
      },
    )
  where
    grow : Grown s.keys (step o s.keys).1 → HasOldest base n (step o s.keys).1.log s.kafka
    grow (inl e) = rw e v.ledger
    grow (inr (x, e)) = rw e (grow-HasOldest base n x s.keys.log s.kafka v.ledger)

pub step_relay-Onward :
    (base n : ℕ) (o : RelayOp) (s : Relay) → IsRelayed base n s → Onward base n (step_relay o s)
unfolding step_relay
step_relay-Onward base n (engine_op o) s v = engine-Onward base n o s v
step_relay-Onward base n (get_cursor w) s v = on_get_cursor-Onward base n w (s.pass w) s v
step_relay-Onward base n (read_stream w) s v =
    on_read_stream-Onward base n w (s.pass w) s v (v.passes w)
step_relay-Onward base n (produce w r) s v =
    on_produce-Onward base n w r (s.pass w) s v (v.passes w)
step_relay-Onward base n (mark_acks w now k) s v =
    on_mark-Onward base n w now k (s.pass w) s v (v.passes w)
step_relay-Onward base n (advance w ok) s v =
    on_advance-Onward base n w ok (s.pass w) s v (v.passes w)
step_relay-Onward base n (crash w) s v = pass-Onward base n w at_rest s v tt
step_relay-Onward base n (wait_open i j) s v = still-Onward base n s _ v (refl, refl, refl, refl)
step_relay-Onward base n (wait_check i) s v = still-Onward base n s _ v (refl, refl, refl, refl)
step_relay-Onward base n (wait_take i) s v = still-Onward base n s _ v (refl, refl, refl, refl)
step_relay-Onward base n (wait_timeout i) s v = still-Onward base n s _ v (refl, refl, refl, refl)

-- Through every sequence of script calls and of the commands of any number of passes, with failed, repeated and
-- cut off writes, failed marks and cursors, and crashes: every message in the partition of the auction is a
-- decision of the log. Read in order, each message taken only where it has the next number, as the settlement
-- does, they are the oldest decisions of the log, never fewer than before, and the cursor is not past them.
pub run_relay-IsRelayed :
    (base n : ℕ) (os : List RelayOp) (s : Relay)
    → IsRelayed base n s
    → (m : ℕ) × (n ≤ m) × IsRelayed base m (run_relay os s)
unfolding run_relay
run_relay-IsRelayed base n [] s v = (n, omega arith, v)
run_relay-IsRelayed base n (o ∷ os) s v =
    let (m, up, v') = step_relay-Onward base n o s v in
    let (m', up', v'') = run_relay-IsRelayed base m os (step_relay o s) v' in
    (m', omega (arith, up, up'), v'')
