-- ===== src/Relay/Ordered.antt =====
-- Runs of the relay of backend/internal/redisengine/engine.go write the decisions to Kafka in their order.
use live_auction.Common.{
  ◌≡◌, refl, sym, subst, true, Bool, Option, none, some, All, List, [], ◌∷◌, arith, ℕ,
}
use live_auction.Engine.Data.{LogEntry}
use live_auction.Relay.Data.{
  Pass, at_rest, has_cursor, has_read, has_produced, has_marked, Relay, Produced, produced,
  produce_failed, produce_cancelled, RelayOp, engine_op, get_cursor, read_stream, crash, produce,
  mark_acks, advance, wait_open, wait_check, wait_take, wait_timeout,
}
use live_auction.Relay.{
  oldest, entries_above, produce_batch, mark_batch, on_get_cursor, on_read_stream, on_produce,
  on_mark, on_advance, step_relay, run_relay,
}
use live_auction.Relay.Fits.{PassFits, IsRelayed}
use live_auction.Relay.Ledger.{step_relay-Onward}
use live_auction.Relay.Turn.{InTurn, stops, write_acked-InTurn, write_parts-InTurn}

-- A request that fails is the last of its batch, as where a batch is one request.
abbrev pub Stops : RelayOp → Type 0
Stops (produce w (produce_failed ks)) = stops ks ≡ true
Stops (produce w (produce_cancelled ks)) = stops ks ≡ true
Stops _ = Unit

produce_batch-InTurn :
    (base n w : ℕ) (r : Produced) (batch : List LogEntry) (last : ℕ) (s : Relay)
    → IsRelayed base n s
    → PassFits n s.keys.log (has_read batch last)
    → Stops (produce w r)
    → InTurn base s.kafka
    → InTurn base (produce_batch w r batch last s).kafka
unfolding produce_batch
produce_batch-InTurn base n w r batch last s v (c, t, le, fits, same, l) h turn =
    subst (λ b. InTurn base (produce_batch w r b last s).kafka) (sym same) (go r h)
  where
    log : List LogEntry
    log = s.keys.log

    go :
        (x : Produced)
        → Stops (produce w x)
        → InTurn base (produce_batch w x (entries_above c (oldest t log)) last s).kafka
    go (produced ks) f =
        write_acked-InTurn base log v.counted.numbered n c t ks s.kafka v.ledger (omega (arith, le))
          fits turn
    go (produce_failed ks) f =
        write_parts-InTurn base log v.counted.numbered n c t ks s.kafka v.ledger (omega (arith, le))
          fits f turn
    go (produce_cancelled ks) f =
        write_parts-InTurn base log v.counted.numbered n c t ks s.kafka v.ledger (omega (arith, le))
          fits f turn

on_produce-InTurn :
    (base n w : ℕ) (r : Produced) (p : Pass) (s : Relay)
    → IsRelayed base n s
    → PassFits n s.keys.log p
    → Stops (produce w r)
    → InTurn base s.kafka
    → InTurn base (on_produce w r p s).kafka
unfolding on_produce
on_produce-InTurn base n w r (has_read b l) s v f h turn =
    produce_batch-InTurn base n w r b l s v f h turn
on_produce-InTurn base n w r at_rest s v f h turn = turn
on_produce-InTurn base n w r (has_cursor c) s v f h turn = turn
on_produce-InTurn base n w r (has_produced b l) s v f h turn = turn
on_produce-InTurn base n w r (has_marked l) s v f h turn = turn

-- The other commands leave the partition.
on_get_cursor-kafka : (w : ℕ) (p : Pass) (s : Relay) → (on_get_cursor w p s).kafka ≡ s.kafka
unfolding on_get_cursor
on_get_cursor-kafka w at_rest s = refl
on_get_cursor-kafka w (has_cursor c) s = refl
on_get_cursor-kafka w (has_read b l) s = refl
on_get_cursor-kafka w (has_produced b l) s = refl
on_get_cursor-kafka w (has_marked l) s = refl

on_read_stream-kafka : (w : ℕ) (p : Pass) (s : Relay) → (on_read_stream w p s).kafka ≡ s.kafka
unfolding on_read_stream
on_read_stream-kafka w at_rest s = refl
on_read_stream-kafka w (has_cursor c) s = refl
on_read_stream-kafka w (has_read b l) s = refl
on_read_stream-kafka w (has_produced b l) s = refl
on_read_stream-kafka w (has_marked l) s = refl

on_mark-kafka :
    (w now : ℕ) (k : Option ℕ) (p : Pass) (s : Relay) → (on_mark w now k p s).kafka ≡ s.kafka
unfolding on_mark mark_batch
on_mark-kafka w now none (has_produced b l) s = refl
on_mark-kafka w now (some k) (has_produced b l) s = refl
on_mark-kafka w now k at_rest s = refl
on_mark-kafka w now k (has_cursor c) s = refl
on_mark-kafka w now k (has_read b l) s = refl
on_mark-kafka w now k (has_marked l) s = refl

on_advance-kafka :
    (w : ℕ) (done : Bool) (p : Pass) (s : Relay) → (on_advance w done p s).kafka ≡ s.kafka
unfolding on_advance
on_advance-kafka w done at_rest s = refl
on_advance-kafka w done (has_cursor c) s = refl
on_advance-kafka w done (has_read b l) s = refl
on_advance-kafka w done (has_produced b l) s = refl
on_advance-kafka w done (has_marked l) s = refl

step_relay-InTurn :
    (base n : ℕ) (o : RelayOp) (s : Relay)
    → IsRelayed base n s
    → Stops o
    → InTurn base s.kafka
    → InTurn base (step_relay o s).kafka
unfolding step_relay
step_relay-InTurn base n (produce w r) s v h turn =
    on_produce-InTurn base n w r (s.pass w) s v (v.passes w) h turn
step_relay-InTurn base n (get_cursor w) s v h turn = rw (on_get_cursor-kafka w (s.pass w) s) turn
step_relay-InTurn base n (read_stream w) s v h turn = rw (on_read_stream-kafka w (s.pass w) s) turn
step_relay-InTurn base n (mark_acks w now k) s v h turn =
    rw (on_mark-kafka w now k (s.pass w) s) turn
step_relay-InTurn base n (advance w done) s v h turn =
    rw (on_advance-kafka w done (s.pass w) s) turn
step_relay-InTurn base n (engine_op o) s v h turn = turn
step_relay-InTurn base n (crash w) s v h turn = turn
step_relay-InTurn base n (wait_open i j) s v h turn = turn
step_relay-InTurn base n (wait_check i) s v h turn = turn
step_relay-InTurn base n (wait_take i) s v h turn = turn
step_relay-InTurn base n (wait_timeout i) s v h turn = turn

-- Where a failed request ends its batch, and always where a batch is one request: through every sequence of
-- script calls and of the commands of any number of passes, with repeated and failed writes, crashes and lost
-- cursors, every message in the partition, repetitions included, has the number that follows all that came
-- before it, or one that came before.
pub run_relay-InTurn :
    (base n : ℕ) (os : List RelayOp) (s : Relay)
    → IsRelayed base n s
    → InTurn base s.kafka
    → All Stops os
    → InTurn base (run_relay os s).kafka
unfolding run_relay
run_relay-InTurn base n [] s v turn h = turn
run_relay-InTurn base n (o ∷ os) s v turn h =
    let (m, up, v') = step_relay-Onward base n o s v in
    run_relay-InTurn base m os (step_relay o s) v' (step_relay-InTurn base n o s v h.0 turn) h.1
