-- ===== src/Relay.antt =====
-- The relay of the decision log to Kafka, relayAuctionLogBatch of backend/internal/redisengine/engine.go, and
-- the calls of waitKafkaAck that wait for it. Passes are not locked against each other.
-- An entry has the payload that the scripts have written, so that it decodes.
pub mod Data
pub mod Oldest
pub mod Prefix
pub mod Requests
pub mod Turn
pub mod Fits
pub mod Commands
pub mod Ledger
pub mod Ordered
pub mod Unmarked
pub mod Sent
pub mod Acked
pub mod Told
pub mod Live
pub mod Settled
mod Tests
use live_auction.Common.{
  ℕ, zero, suc, ◌+◌, Bool, true, false, ◌&&◌, ◌||◌, not, Option, none, some, List, [], ◌∷◌, ◌++◌,
  map, length, leb, ◌==◌, update, if◌then◌else◌,
}
use live_auction.Engine.Data.{
  AppendStatus, append_unknown, append_acked, append_failed, EngineResult, IdemHash, LogEntry,
  Keyspace,
}
use live_auction.Engine.Run.{Op, step}
use live_auction.Relay.Data.{
  Pass, at_rest, has_cursor, has_read, has_produced, has_marked, Waiter, Relay, Produced, produced,
  produce_failed, produce_cancelled, RelayOp, engine_op, get_cursor, read_stream, crash, produce,
  mark_acks, advance, wait_open, wait_check, wait_take, wait_timeout,
}

-- The `n` oldest entries of a list that has the newest first, and the entries after the first `n`.
abbrev pub oldest {ℓ} : {A : Type ℓ} → ℕ → List A → List A
oldest n [] = []
oldest n (e ∷ es) = if leb (suc (length es)) n then e ∷ es else oldest n es

abbrev pub entries_above {ℓ} : {A : Type ℓ} → ℕ → List A → List A
entries_above n [] = []
entries_above n (e ∷ es) =
    let rest = entries_above n es in if leb (suc (length es)) n then [] else e ∷ rest

abbrev pub payloads : List LogEntry → List EngineResult
payloads es = map (λ e. e.payload) es

abbrev pub has_mismatch : ℕ → List LogEntry → Bool
has_mismatch auction [] = false
has_mismatch auction (e ∷ es) = not (e.payload.auction_id == auction) || has_mismatch auction es

-- XREAD after the cursor, at most 512 entries.
abbrev pub batch_after : ℕ → List LogEntry → List LogEntry
batch_after c log = entries_above c (oldest (c + 512) log)

abbrev pub read_batch : ℕ → ℕ → List LogEntry → Pass
read_batch auction c [] = at_rest
read_batch auction c (e ∷ es) =
    if has_mismatch auction (e ∷ es) then at_rest else has_read (e ∷ es) (c + length (e ∷ es))

-- A request that is written a number of times.
abbrev pub write_times : ℕ → List EngineResult → List EngineResult → List EngineResult
write_times zero part kafka = kafka
write_times (suc n) part kafka = part ++ write_times n part kafka

-- The requests of a batch that fails, and of one that is acknowledged.
abbrev pub write_parts : List (ℕ × ℕ) → List EngineResult → List EngineResult → List EngineResult
write_parts [] batch kafka = kafka
write_parts ((k, n) ∷ ks) batch kafka =
    write_parts ks (entries_above k batch) (write_times n (oldest k batch) kafka)

abbrev pub write_acked : List (ℕ × ℕ) → List EngineResult → List EngineResult → List EngineResult
write_acked [] batch kafka = batch ++ kafka
write_acked ((k, n) ∷ ks) batch kafka =
    write_acked ks (entries_above k batch) (write_times (suc n) (oldest k batch) kafka)

abbrev pub is_for : ℕ → List LogEntry → Bool
is_for j [] = false
is_for j (e ∷ es) = (e.payload.client_bid_id == j) || is_for j es

-- `signalKafkaAckWaitersWithStatus`: a full channel keeps its value, and the registry forgets the channel.
abbrev pub signal_one : Bool → List LogEntry → Waiter → Waiter
signal_one acked batch w =
    if w.registered && is_for w.client_bid_id batch
    then record w { registered = false; ch = elim w.ch [ none ↦ some acked | some b ↦ some b ] }
    else w

abbrev pub signal_waiters : Bool → List LogEntry → (ℕ → Option Waiter) → ℕ → Option Waiter
signal_waiters acked batch ws i = elim (ws i) [
  | none ↦ none
  | some w ↦ some (signal_one acked batch w)
]

abbrev pub mark_acked : ℕ → IdemHash → IdemHash
mark_acked now h = record h {
  kafka_append_status = some append_acked;
  expires_at_ms = some (now + 86400000);
}

-- The commands of the pipeline, from the oldest entry on.
abbrev pub mark_each : ℕ → List LogEntry → Keyspace → Keyspace
mark_each now [] ks = ks
mark_each now (e ∷ es) ks =
    let before = mark_each now es ks in
    record before {
      idem =
          update before.idem e.payload.client_bid_id
            (mark_acked now (before.idem e.payload.client_bid_id));
      pending = update before.pending e.payload.engine_seq none;
    }

abbrev pub set_pass : ℕ → Pass → Relay → Relay
set_pass w p s = record s { pass = update s.pass w p }

unfoldable pub produce_batch : ℕ → Produced → List LogEntry → ℕ → Relay → Relay
produce_batch w (produced parts) batch last s = record s {
  kafka = write_acked parts (payloads batch) s.kafka;
  unhealthy = false;
  pass = update s.pass w (has_produced batch last);
}
produce_batch w (produce_failed parts) batch last s = record s {
  kafka = write_parts parts (payloads batch) s.kafka;
  unhealthy = true;
  pass = update s.pass w at_rest;
  waiter = signal_waiters false batch s.waiter;
}
produce_batch w (produce_cancelled parts) batch last s = record s {
  kafka = write_parts parts (payloads batch) s.kafka;
  pass = update s.pass w at_rest;
  waiter = signal_waiters false batch s.waiter;
}

unfoldable pub mark_batch : ℕ → ℕ → Option ℕ → List LogEntry → ℕ → Relay → Relay
mark_batch w now none batch last s = record s {
  keys = mark_each now batch s.keys;
  pass = update s.pass w (has_marked last);
  waiter = signal_waiters true batch s.waiter;
}
mark_batch w now (some k) batch last s = record s {
  keys = mark_each now (oldest k batch) s.keys;
  pass = update s.pass w (has_marked last);
}

-- The commands of `relayAuctionLogBatch`; a pass that is elsewhere stays there.
unfoldable pub on_get_cursor : ℕ → Pass → Relay → Relay
on_get_cursor w at_rest s = set_pass w (has_cursor s.cursor) s
on_get_cursor w _ s = s

unfoldable pub on_read_stream : ℕ → Pass → Relay → Relay
on_read_stream w (has_cursor c) s =
    set_pass w (read_batch s.auction_id c (batch_after c s.keys.log)) s
on_read_stream w _ s = s

unfoldable pub on_produce : ℕ → Produced → Pass → Relay → Relay
unfolding produce_batch
on_produce w r (has_read batch last) s = produce_batch w r batch last s
on_produce w r _ s = s

unfoldable pub on_mark : ℕ → ℕ → Option ℕ → Pass → Relay → Relay
unfolding mark_batch
on_mark w now k (has_produced batch last) s = mark_batch w now k batch last s
on_mark w now k _ s = s

unfoldable pub on_advance : ℕ → Bool → Pass → Relay → Relay
on_advance w ok (has_marked last) s =
    set_pass w at_rest (record s { cursor = if ok then last else s.cursor })
on_advance w ok _ s = s

-- `waitKafkaAck` until it waits: the circuit breaker, and the channel in the registry.
abbrev pub open_waiter : ℕ → Bool → Option Waiter → Option Waiter
open_waiter j unhealthy none = some (record {
  client_bid_id = j;
  registered = not unhealthy;
  ch = none;
  answer = if unhealthy then some append_unknown else none;
})
open_waiter j unhealthy (some w) = some w

abbrev pub answer_unless : Option AppendStatus → AppendStatus → Waiter → Waiter
answer_unless none a w = record w { registered = false; answer = some a }
answer_unless (some b) a w = w

-- The call returns; one that has returned stays so.
abbrev pub answer_with : AppendStatus → Waiter → Waiter
answer_with a w = answer_unless w.answer a w

-- The eager look at the idempotency record.
abbrev pub check_status : Option AppendStatus → Waiter → Waiter
check_status (some append_acked) w = answer_with append_acked w
check_status (some append_failed) w = answer_with append_failed w
check_status _ w = w

abbrev pub check_waiter : (ℕ → IdemHash) → Option Waiter → Option Waiter
check_waiter idem none = none
check_waiter idem (some w) = some (check_status (idem w.client_bid_id).kafka_append_status w)

-- The signal, the timeout or the end of the context.
abbrev pub take_signal : Option Bool → Waiter → Waiter
take_signal none w = w
take_signal (some acked) w = answer_with (if acked then append_acked else append_unknown) w

abbrev pub take_waiter : Option Waiter → Option Waiter
take_waiter none = none
take_waiter (some w) = some (take_signal w.ch w)

abbrev pub end_waiter : Option Waiter → Option Waiter
end_waiter none = none
end_waiter (some w) = some (answer_with append_unknown w)

abbrev pub set_waiter : ℕ → Option Waiter → Relay → Relay
set_waiter i w s = record s { waiter = update s.waiter i w }

unfoldable pub step_relay : RelayOp → Relay → Relay
unfolding on_get_cursor on_read_stream on_produce on_mark on_advance
step_relay (engine_op o) s = record s { keys = (step o s.keys).1 }
step_relay (get_cursor w) s = on_get_cursor w (s.pass w) s
step_relay (read_stream w) s = on_read_stream w (s.pass w) s
step_relay (produce w r) s = on_produce w r (s.pass w) s
step_relay (mark_acks w now k) s = on_mark w now k (s.pass w) s
step_relay (advance w ok) s = on_advance w ok (s.pass w) s
step_relay (crash w) s = set_pass w at_rest s
step_relay (wait_open i j) s = set_waiter i (open_waiter j s.unhealthy (s.waiter i)) s
step_relay (wait_check i) s = set_waiter i (check_waiter s.keys.idem (s.waiter i)) s
step_relay (wait_take i) s = set_waiter i (take_waiter (s.waiter i)) s
step_relay (wait_timeout i) s = set_waiter i (end_waiter (s.waiter i)) s

unfoldable pub run_relay : List RelayOp → Relay → Relay
unfolding step_relay
run_relay [] s = s
run_relay (o ∷ os) s = run_relay os (step_relay o s)
