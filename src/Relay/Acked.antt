-- ===== src/Relay/Acked.antt =====
-- Who is told of redisengine/engine.go that a bid is durable: its decision is in Kafka.
use live_auction.Common.{
  ℕ, ◌≡◌, refl, subst, inl, inr, Bool, true, false, ◌&&◌, Option, none, some, List, [], ◌∷◌,
  All-weaken, ◌==◌, update, Bool-cases, Option-cases, arith,
}
use live_auction.Engine.Data.{
  AppendStatus, append_unknown, append_acked, append_failed, EngineResult, LogEntry, Keyspace,
}
use live_auction.Relay.Data.{
  Pass, at_rest, has_cursor, has_read, has_produced, has_marked, Waiter, Relay,
}
use live_auction.Relay.{
  is_for, signal_one, signal_waiters, mark_each, read_batch, has_mismatch, answer_unless,
  answer_with, check_status, take_signal,
}
use live_auction.Relay.Sent.{is_sent, AllSent, Grows}

abbrev pub PassSent : List EngineResult → Pass → Type 0
PassSent kafka (has_produced batch last) = AllSent kafka batch
PassSent kafka _ = Unit

-- A signal or an answer of success is for a client bid id whose decision is in Kafka.
pub record WaiterSent (kafka : List EngineResult) (w : Waiter) : Type 0 where
  pub signal : w.ch ≡ some true → is_sent w.client_bid_id kafka ≡ true
  pub answer : w.answer ≡ some append_acked → is_sent w.client_bid_id kafka ≡ true

pub record IsTold (s : Relay) : Type 0 where
  pub marked :
      (j : ℕ) → (s.keys.idem j).kafka_append_status ≡ some append_acked → is_sent j s.kafka ≡ true
  pub passes : (w : ℕ) → PassSent s.kafka (s.pass w)
  pub waiters : (i : ℕ) (w : Waiter) → s.waiter i ≡ some w → WaiterSent s.kafka w

pub PassSent-Grows :
    (ns ms : List EngineResult) (p : Pass) → Grows ns ms → PassSent ns p → PassSent ms p
PassSent-Grows ns ms at_rest g v = tt
PassSent-Grows ns ms (has_cursor c) g v = tt
PassSent-Grows ns ms (has_read b l) g v = tt
PassSent-Grows ns ms (has_produced b l) g v =
    All-weaken _ _ (λ (e : LogEntry) h. g e.payload.client_bid_id h) b v
PassSent-Grows ns ms (has_marked l) g v = tt

pub WaiterSent-Grows :
    (ns ms : List EngineResult) (w : Waiter) → Grows ns ms → WaiterSent ns w → WaiterSent ms w
WaiterSent-Grows ns ms w g v = record {
  signal = λ h. g w.client_bid_id (v.signal h);
  answer = λ h. g w.client_bid_id (v.answer h);
}

-- Only what is in Kafka is marked.
pub mark_each-marked :
    (now : ℕ) (b : List LogEntry) (ks : Keyspace) (kafka : List EngineResult)
    → AllSent kafka b
    → ((j : ℕ) → (ks.idem j).kafka_append_status ≡ some append_acked → is_sent j kafka ≡ true)
    → (j : ℕ) → ((mark_each now b ks).idem j).kafka_append_status ≡ some append_acked
    → is_sent j kafka ≡ true
mark_each-marked now [] ks kafka v m j h = m j h
mark_each-marked now (e ∷ es) ks kafka v m j h = elim (Bool-cases (j == e.payload.client_bid_id)) [
  | inl own ↦ ground (arith, own, v.0)
  | inr other ↦ mark_each-marked now es ks kafka v.1 m j (rw other at h)
]

-- The registry knows a waiter by its client bid id.
is_for-is_sent :
    (j : ℕ) (b : List LogEntry) (kafka : List EngineResult)
    → AllSent kafka b
    → is_for j b ≡ true
    → is_sent j kafka ≡ true
is_for-is_sent j [] kafka v h = absurd (cc)
is_for-is_sent j (e ∷ es) kafka v h = elim (Bool-cases (e.payload.client_bid_id == j)) [
  | inl own ↦ ground (arith, own, v.0)
  | inr other ↦ is_for-is_sent j es kafka v.1 (ground (arith, other, h))
]

signal_one-WaiterSent :
    (acked : Bool) (b : List LogEntry) (w : Waiter) (kafka : List EngineResult)
    → (acked ≡ true → AllSent kafka b)
    → WaiterSent kafka w
    → WaiterSent kafka (signal_one acked b w)
signal_one-WaiterSent acked b w kafka sent v =
    elim (Bool-cases (w.registered && is_for w.client_bid_id b)) [
      | inr other ↦ rw other v
      | inl own ↦
          let for_it : is_for w.client_bid_id b ≡ true = ground (arith, own) in
          rw own (record { signal = λ h. go w.ch acked v.signal sent for_it h; answer = v.answer })
    ]
  where
    go :
        (o : Option Bool) (acked : Bool)
        → (o ≡ some true → is_sent w.client_bid_id kafka ≡ true)
        → (acked ≡ true → AllSent kafka b)
        → is_for w.client_bid_id b ≡ true
        → elim o [ none ↦ some acked | some x ↦ some x ] ≡ some true
        → is_sent w.client_bid_id kafka ≡ true
    go none acked old sent for_it h = is_for-is_sent w.client_bid_id b kafka (sent (cc)) for_it
    go (some x) acked old sent for_it h = old h

pub answer_with-WaiterSent :
    (a : AppendStatus) (w : Waiter) (kafka : List EngineResult)
    → (a ≡ append_acked → is_sent w.client_bid_id kafka ≡ true)
    → WaiterSent kafka w
    → WaiterSent kafka (answer_with a w)
answer_with-WaiterSent a w kafka h v = go w.answer
  where
    go : (o : Option AppendStatus) → WaiterSent kafka (answer_unless o a w)
    go none = record { signal = v.signal; answer = λ e. h (cc) }
    go (some b) = v

pub check_status-WaiterSent :
    (o : Option AppendStatus) (w : Waiter) (kafka : List EngineResult)
    → (o ≡ some append_acked → is_sent w.client_bid_id kafka ≡ true)
    → WaiterSent kafka w
    → WaiterSent kafka (check_status o w)
check_status-WaiterSent none w kafka h v = v
check_status-WaiterSent (some append_acked) w kafka h v =
    answer_with-WaiterSent append_acked w kafka (λ e. h refl) v
check_status-WaiterSent (some append_failed) w kafka h v =
    answer_with-WaiterSent append_failed w kafka (λ e. absurd (cc)) v
check_status-WaiterSent (some append_unknown) w kafka h v = v

pub take_signal-WaiterSent :
    (o : Option Bool) (w : Waiter) (kafka : List EngineResult)
    → (o ≡ some true → is_sent w.client_bid_id kafka ≡ true)
    → WaiterSent kafka w
    → WaiterSent kafka (take_signal o w)
take_signal-WaiterSent none w kafka h v = v
take_signal-WaiterSent (some true) w kafka h v =
    answer_with-WaiterSent append_acked w kafka (λ e. h refl) v
take_signal-WaiterSent (some false) w kafka h v =
    answer_with-WaiterSent append_unknown w kafka (λ e. absurd (cc)) v

-- The table of waiting calls.
abbrev pub AllTold : List EngineResult → (ℕ → Option Waiter) → Type 0
AllTold kafka ws = (i : ℕ) (w : Waiter) → ws i ≡ some w → WaiterSent kafka w

pub signal_waiters-AllTold :
    (acked : Bool) (b : List LogEntry) (ws : ℕ → Option Waiter) (kafka : List EngineResult)
    → (acked ≡ true → AllSent kafka b)
    → AllTold kafka ws
    → AllTold kafka (signal_waiters acked b ws)
signal_waiters-AllTold acked b ws kafka sent v i w e = elim (Option-cases (ws i)) [
  | inl none_there ↦ absurd (cc (rw (none_there, signal_waiters) at e))
  | inr (x, there) ↦
      let same : signal_one acked b x ≡ w = cc (rw (there, signal_waiters) at e) in
      subst (WaiterSent kafka) same (signal_one-WaiterSent acked b x kafka sent (v i x there))
]

update-AllTold :
    (ws : ℕ → Option Waiter) (i : ℕ) (o : Option Waiter) (kafka : List EngineResult)
    → ((w : Waiter) → o ≡ some w → WaiterSent kafka w)
    → AllTold kafka ws
    → AllTold kafka (update ws i o)
update-AllTold ws i o kafka h v j w e = elim (Bool-cases (j == i)) [
  | inl own ↦ h w (rw own at e)
  | inr other ↦ v j w (rw other at e)
]

pub update-PassSent :
    (kafka : List EngineResult) (pass : ℕ → Pass) (w : ℕ) (p : Pass)
    → ((v : ℕ) → PassSent kafka (pass v))
    → PassSent kafka p
    → (v : ℕ) → PassSent kafka (update pass w p v)
update-PassSent kafka pass w p f q v = elim (Bool-cases (v == w)) [
  | inl own ↦ rw own q
  | inr other ↦ rw other (f v)
]

pub read_batch-PassSent :
    (kafka : List EngineResult) (auction c : ℕ) (b : List LogEntry)
    → PassSent kafka (read_batch auction c b)
read_batch-PassSent kafka auction c [] = tt
read_batch-PassSent kafka auction c (e ∷ es) = elim (Bool-cases (has_mismatch auction (e ∷ es))) [
  | inl bad ↦ rw bad tt
  | inr good ↦ rw good tt
]

pub set_pass-IsTold :
    (w : ℕ) (p : Pass) (s : Relay)
    → PassSent s.kafka p
    → IsTold s
    → IsTold (record s { pass = update s.pass w p })
set_pass-IsTold w p s f v = record {
  marked = v.marked;
  passes = update-PassSent s.kafka s.pass w p v.passes f;
  waiters = v.waiters;
}

pub set_waiter-IsTold :
    (i : ℕ) (o : Option Waiter) (s : Relay)
    → ((w : Waiter) → o ≡ some w → WaiterSent s.kafka w)
    → IsTold s
    → IsTold (record s { waiter = update s.waiter i o })
set_waiter-IsTold i o s h v = record {
  marked = v.marked;
  passes = v.passes;
  waiters = update-AllTold s.waiter i o s.kafka h v.waiters;
}
