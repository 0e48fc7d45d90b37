-- ===== src/Relay/Told.antt =====
-- One command after the other of redisengine/engine.go: a success that is told is for a decision in Kafka.
use live_auction.Common.{
  ℕ, ◌≡◌, refl, subst, Bool, true, false, not, Option, none, some, List, [], ◌∷◌, update,
  if◌then◌else◌,
}
use live_auction.Engine.Data.{append_unknown, EngineResult, LogEntry}
use live_auction.Relay.Data.{
  Pass, at_rest, has_cursor, has_read, has_produced, has_marked, Waiter, Relay, Produced, produced,
  produce_failed, produce_cancelled, RelayOp, engine_op, get_cursor, read_stream, crash, produce,
  mark_acks, advance, wait_open, wait_check, wait_take, wait_timeout,
}
use live_auction.Relay.{
  oldest, payloads, produce_batch, mark_batch, batch_after, on_get_cursor, on_read_stream,
  on_produce, on_mark, on_advance, open_waiter, check_waiter, take_waiter, end_waiter, step_relay,
  run_relay,
}
use live_auction.Relay.Unmarked.{step-NoneMarked}
use live_auction.Relay.Sent.{
  Grows, write_parts-Grows, write_acked-Grows, write_acked-AllSent, AllSent-oldest,
}
use live_auction.Relay.Acked.{
  PassSent, WaiterSent, IsTold, PassSent-Grows, WaiterSent-Grows, mark_each-marked,
  signal_waiters-AllTold, AllTold, set_pass-IsTold, set_waiter-IsTold, update-PassSent,
  read_batch-PassSent, check_status-WaiterSent, take_signal-WaiterSent, answer_with-WaiterSent,
}

on_get_cursor-IsTold : (w : ℕ) (p : Pass) (s : Relay) → IsTold s → IsTold (on_get_cursor w p s)
unfolding on_get_cursor
on_get_cursor-IsTold w at_rest s v = set_pass-IsTold w _ s tt v
on_get_cursor-IsTold w (has_cursor c) s v = v
on_get_cursor-IsTold w (has_read b l) s v = v
on_get_cursor-IsTold w (has_produced b l) s v = v
on_get_cursor-IsTold w (has_marked l) s v = v

on_read_stream-IsTold : (w : ℕ) (p : Pass) (s : Relay) → IsTold s → IsTold (on_read_stream w p s)
unfolding on_read_stream
on_read_stream-IsTold w (has_cursor c) s v =
    set_pass-IsTold w _ s (read_batch-PassSent s.kafka s.auction_id c (batch_after c s.keys.log)) v
on_read_stream-IsTold w at_rest s v = v
on_read_stream-IsTold w (has_read b l) s v = v
on_read_stream-IsTold w (has_produced b l) s v = v
on_read_stream-IsTold w (has_marked l) s v = v

-- More messages, a pass that goes on, and signals.
grown-IsTold :
    (w : ℕ) (p : Pass) (s s' : Relay)
    → IsTold s
    → Grows s.kafka s'.kafka
    → (s'.keys ≡ s.keys) × (s'.pass ≡ update s.pass w p)
    → PassSent s'.kafka p
    → AllTold s'.kafka s'.waiter
    → IsTold s'
grown-IsTold w p s s' v g (keys, pass) f told = record {
  marked = λ j h. g j (v.marked j (rw keys at h));
  passes = rw pass (
      update-PassSent s'.kafka s.pass w p
        (λ u. PassSent-Grows s.kafka s'.kafka (s.pass u) g (v.passes u)) f);
  waiters = told;
}

AllTold-Grows :
    (ns ms : List EngineResult) (ws : ℕ → Option Waiter)
    → Grows ns ms
    → AllTold ns ws
    → AllTold ms ws
AllTold-Grows ns ms ws g v i w e = WaiterSent-Grows ns ms w g (v i w e)

produce_batch-IsTold :
    (w : ℕ) (r : Produced) (b : List LogEntry) (l : ℕ) (s : Relay)
    → IsTold s
    → IsTold (produce_batch w r b l s)
unfolding produce_batch
produce_batch-IsTold w (produced ks) b l s v =
    let g = write_acked-Grows ks (payloads b) s.kafka in
    grown-IsTold w (has_produced b l) s _ v g (refl, refl) (write_acked-AllSent ks b s.kafka)
      (AllTold-Grows s.kafka _ s.waiter g v.waiters)
produce_batch-IsTold w (produce_failed ks) b l s v =
    let g = write_parts-Grows ks (payloads b) s.kafka in
    grown-IsTold w at_rest s _ v g (refl, refl) tt
      (signal_waiters-AllTold false b s.waiter _ (λ h. absurd (cc))
        (AllTold-Grows s.kafka _ s.waiter g v.waiters))
produce_batch-IsTold w (produce_cancelled ks) b l s v =
    let g = write_parts-Grows ks (payloads b) s.kafka in
    grown-IsTold w at_rest s _ v g (refl, refl) tt
      (signal_waiters-AllTold false b s.waiter _ (λ h. absurd (cc))
        (AllTold-Grows s.kafka _ s.waiter g v.waiters))

on_produce-IsTold :
    (w : ℕ) (r : Produced) (p : Pass) (s : Relay) → IsTold s → IsTold (on_produce w r p s)
unfolding on_produce
on_produce-IsTold w r (has_read b l) s v = produce_batch-IsTold w r b l s v
on_produce-IsTold w r at_rest s v = v
on_produce-IsTold w r (has_cursor c) s v = v
on_produce-IsTold w r (has_produced b l) s v = v
on_produce-IsTold w r (has_marked l) s v = v

on_mark-IsTold :
    (w now : ℕ) (k : Option ℕ) (p : Pass) (s : Relay)
    → IsTold s
    → PassSent s.kafka p
    → IsTold (on_mark w now k p s)
unfolding on_mark mark_batch
on_mark-IsTold w now none (has_produced b l) s v f = record {
  marked = mark_each-marked now b s.keys s.kafka f v.marked;
  passes = update-PassSent s.kafka s.pass w (has_marked l) v.passes tt;
  waiters = signal_waiters-AllTold true b s.waiter s.kafka (λ h. f) v.waiters;
}
on_mark-IsTold w now (some k) (has_produced b l) s v f = record {
  marked = mark_each-marked now (oldest k b) s.keys s.kafka (AllSent-oldest k s.kafka b f) v.marked;
  passes = update-PassSent s.kafka s.pass w (has_marked l) v.passes tt;
  waiters = v.waiters;
}
on_mark-IsTold w now k at_rest s v f = v
on_mark-IsTold w now k (has_cursor c) s v f = v
on_mark-IsTold w now k (has_read b l) s v f = v
on_mark-IsTold w now k (has_marked l) s v f = v

on_advance-IsTold :
    (w : ℕ) (ok : Bool) (p : Pass) (s : Relay) → IsTold s → IsTold (on_advance w ok p s)
unfolding on_advance
on_advance-IsTold w ok (has_marked l) s v = record {
  marked = v.marked;
  passes = update-PassSent s.kafka s.pass w at_rest v.passes tt;
  waiters = v.waiters;
}
on_advance-IsTold w ok at_rest s v = v
on_advance-IsTold w ok (has_cursor c) s v = v
on_advance-IsTold w ok (has_read b l) s v = v
on_advance-IsTold w ok (has_produced b l) s v = v

-- What becomes of a waiting call.
opened-WaiterSent :
    (j : ℕ) (unhealthy : Bool) (kafka : List EngineResult)
    → WaiterSent kafka (record {
      client_bid_id = j;
      registered = not unhealthy;
      ch = none;
      answer = if unhealthy then some append_unknown else none;
    })
opened-WaiterSent j true kafka = record { signal = λ h. absurd (cc); answer = λ h. absurd (cc) }
opened-WaiterSent j false kafka = record { signal = λ h. absurd (cc); answer = λ h. absurd (cc) }

open_waiter-WaiterSent :
    (j : ℕ) (unhealthy : Bool) (o : Option Waiter) (kafka : List EngineResult)
    → ((w : Waiter) → o ≡ some w → WaiterSent kafka w)
    → (w : Waiter) → open_waiter j unhealthy o ≡ some w
    → WaiterSent kafka w
open_waiter-WaiterSent j unhealthy none kafka v w e =
    subst (WaiterSent kafka) (cc) (opened-WaiterSent j unhealthy kafka)
open_waiter-WaiterSent j unhealthy (some x) kafka v w e = v w e

check_waiter-WaiterSent :
    (s : Relay) (o : Option Waiter)
    → IsTold s
    → ((w : Waiter) → o ≡ some w → WaiterSent s.kafka w)
    → (w : Waiter) → check_waiter s.keys.idem o ≡ some w
    → WaiterSent s.kafka w
check_waiter-WaiterSent s none t v w e = absurd (cc)
check_waiter-WaiterSent s (some x) t v w e = subst (WaiterSent s.kafka) (cc) (
    check_status-WaiterSent (s.keys.idem x.client_bid_id).kafka_append_status x s.kafka
      (t.marked x.client_bid_id) (v x refl))

take_waiter-WaiterSent :
    (o : Option Waiter) (kafka : List EngineResult)
    → ((w : Waiter) → o ≡ some w → WaiterSent kafka w)
    → (w : Waiter) → take_waiter o ≡ some w
    → WaiterSent kafka w
take_waiter-WaiterSent none kafka v w e = absurd (cc)
take_waiter-WaiterSent (some x) kafka v w e =
    subst (WaiterSent kafka) (cc) (take_signal-WaiterSent x.ch x kafka (v x refl).signal (v x refl))

end_waiter-WaiterSent :
    (o : Option Waiter) (kafka : List EngineResult)
    → ((w : Waiter) → o ≡ some w → WaiterSent kafka w)
    → (w : Waiter) → end_waiter o ≡ some w
    → WaiterSent kafka w
end_waiter-WaiterSent none kafka v w e = absurd (cc)
end_waiter-WaiterSent (some x) kafka v w e =
    subst (WaiterSent kafka) (cc)
      (answer_with-WaiterSent append_unknown x kafka (λ h. absurd (cc)) (v x refl))

step_relay-IsTold : (o : RelayOp) (s : Relay) → IsTold s → IsTold (step_relay o s)
unfolding step_relay
step_relay-IsTold (engine_op o) s v = record {
  marked = λ j h. v.marked j (step-NoneMarked o s.keys j h);
  passes = v.passes;
  waiters = v.waiters;
}
step_relay-IsTold (get_cursor w) s v = on_get_cursor-IsTold w (s.pass w) s v
step_relay-IsTold (read_stream w) s v = on_read_stream-IsTold w (s.pass w) s v
step_relay-IsTold (produce w r) s v = on_produce-IsTold w r (s.pass w) s v
step_relay-IsTold (mark_acks w now k) s v = on_mark-IsTold w now k (s.pass w) s v (v.passes w)
step_relay-IsTold (advance w ok) s v = on_advance-IsTold w ok (s.pass w) s v
step_relay-IsTold (crash w) s v = set_pass-IsTold w at_rest s tt v
step_relay-IsTold (wait_open i j) s v =
    set_waiter-IsTold i _ s
      (open_waiter-WaiterSent j s.unhealthy (s.waiter i) s.kafka (v.waiters i)) v
step_relay-IsTold (wait_check i) s v =
    set_waiter-IsTold i _ s (check_waiter-WaiterSent s (s.waiter i) v (v.waiters i)) v
step_relay-IsTold (wait_take i) s v =
    set_waiter-IsTold i _ s (take_waiter-WaiterSent (s.waiter i) s.kafka (v.waiters i)) v
step_relay-IsTold (wait_timeout i) s v =
    set_waiter-IsTold i _ s (end_waiter-WaiterSent (s.waiter i) s.kafka (v.waiters i)) v

-- Through every sequence of script calls, of the commands of any number of passes with their failures and
-- crashes, and of waiting calls: a call of waitKafkaAck that has answered ACKED, or has the signal for it, and
-- an idempotency record that says ACKED, is for a client bid id whose decision is in Kafka.
pub run_relay-IsTold : (os : List RelayOp) (s : Relay) → IsTold s → IsTold (run_relay os s)
unfolding run_relay
run_relay-IsTold [] s v = v
run_relay-IsTold (o ∷ os) s v = run_relay-IsTold os (step_relay o s) (step_relay-IsTold o s v)
