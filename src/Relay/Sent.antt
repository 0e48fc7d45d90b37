-- ===== src/Relay/Sent.antt =====
-- Which decisions the requests of a batch put into Kafka, AppendBatch of backend/internal/redisengine/kafka_ledger.go.
use live_auction.Common.{
  ℕ, zero, suc, ◌≡◌, ◌⊎◌, inl, inr, Bool, true, false, ◌||◌, List, [], ◌∷◌, ◌++◌, All, All-weaken,
  length, ◌==◌, Bool-cases, leb, arith,
}
use live_auction.Engine.Data.{EngineResult, LogEntry}
use live_auction.Relay.{oldest, entries_above, payloads, write_times, write_parts, write_acked}

-- A decision for the client bid id is among the messages.
abbrev pub is_sent : ℕ → List EngineResult → Bool
is_sent j [] = false
is_sent j (m ∷ ms) = (m.client_bid_id == j) || is_sent j ms

pub is_sent-append :
    (j : ℕ) (ms ns : List EngineResult) → is_sent j ns ≡ true → is_sent j (ms ++ ns) ≡ true
is_sent-append j [] ns h = h
is_sent-append j (m ∷ ms) ns h = ground (arith, is_sent-append j ms ns h)

abbrev pub AllSent : List EngineResult → List LogEntry → Type 0
AllSent kafka batch = All (λ e. is_sent e.payload.client_bid_id kafka ≡ true) batch

-- More messages.
abbrev pub Grows : List EngineResult → List EngineResult → Type 0
Grows ns ms = (j : ℕ) → is_sent j ns ≡ true → is_sent j ms ≡ true

write_times-Grows :
    (n : ℕ) (part kafka : List EngineResult) → Grows kafka (write_times n part kafka)
write_times-Grows zero part kafka j h = h
write_times-Grows (suc n) part kafka j h =
    is_sent-append j part _ (write_times-Grows n part kafka j h)

pub write_parts-Grows :
    (ks : List (ℕ × ℕ)) (batch kafka : List EngineResult) → Grows kafka (write_parts ks batch kafka)
write_parts-Grows [] batch kafka j h = h
write_parts-Grows ((k, n) ∷ ks) batch kafka j h =
    write_parts-Grows ks (entries_above k batch) (write_times n (oldest k batch) kafka) j
      (write_times-Grows n (oldest k batch) kafka j h)

pub write_acked-Grows :
    (ks : List (ℕ × ℕ)) (batch kafka : List EngineResult) → Grows kafka (write_acked ks batch kafka)
write_acked-Grows [] batch kafka j h = is_sent-append j batch kafka h
write_acked-Grows ((k, n) ∷ ks) batch kafka j h =
    write_acked-Grows ks (entries_above k batch) (write_times (suc n) (oldest k batch) kafka) j
      (write_times-Grows (suc n) (oldest k batch) kafka j h)

is_sent-prefix :
    (j : ℕ) (ms ns : List EngineResult) → is_sent j ms ≡ true → is_sent j (ms ++ ns) ≡ true
is_sent-prefix j [] ns h = absurd (cc)
is_sent-prefix j (m ∷ ms) ns h = elim (Bool-cases (m.client_bid_id == j)) [
  | inl own ↦ ground (arith, own)
  | inr other ↦ ground (arith, other, is_sent-prefix j ms ns (ground (arith, other, h)))
]

-- A message is in the first request of a batch or in the rest.
is_sent-split :
    (j k : ℕ) (ms : List EngineResult)
    → is_sent j ms ≡ true
    → (is_sent j (oldest k ms) ≡ true) ⊎ (is_sent j (entries_above k ms) ≡ true)
is_sent-split j k [] h = absurd (cc)
is_sent-split j k (m ∷ ms) h = elim (Bool-cases (leb (suc (length ms)) k)) [
  | inl y ↦ rw y (inl h)
  | inr n ↦ rw n (elim (Bool-cases (m.client_bid_id == j)) [
    | inl own ↦ inr (ground (arith, own))
    | inr other ↦ elim (is_sent-split j k ms (ground (arith, other, h))) [
      | inl low ↦ inl low
      | inr high ↦ inr (ground (arith, high))
    ]
  ])
]

-- What is acknowledged is in Kafka.
write_acked-is_sent :
    (ks : List (ℕ × ℕ)) (batch kafka : List EngineResult) → Grows batch (write_acked ks batch kafka)
write_acked-is_sent [] batch kafka j h = is_sent-prefix j batch kafka h
write_acked-is_sent ((k, n) ∷ ks) batch kafka j h = elim (is_sent-split j k batch h) [
  | inl low ↦
      write_acked-Grows ks (entries_above k batch) (write_times (suc n) (oldest k batch) kafka) j
        (is_sent-prefix j (oldest k batch) _ low)
  | inr high ↦
      write_acked-is_sent ks (entries_above k batch) (write_times (suc n) (oldest k batch) kafka) j
        high
]

payloads-AllSent : (batch : List LogEntry) → AllSent (payloads batch) batch
payloads-AllSent [] = tt
payloads-AllSent (e ∷ es) =
    (ground arith, All-weaken _ _ (λ (x : LogEntry) h. ground (arith, h)) es (payloads-AllSent es))

pub write_acked-AllSent :
    (ks : List (ℕ × ℕ)) (batch : List LogEntry) (kafka : List EngineResult)
    → AllSent (write_acked ks (payloads batch) kafka) batch
write_acked-AllSent ks batch kafka =
    All-weaken _ _
      (λ (e : LogEntry) h. write_acked-is_sent ks (payloads batch) kafka e.payload.client_bid_id h)
      batch (payloads-AllSent batch)

pub AllSent-oldest :
    (k : ℕ) (kafka : List EngineResult) (b : List LogEntry)
    → AllSent kafka b
    → AllSent kafka (oldest k b)
AllSent-oldest k kafka [] v = tt
AllSent-oldest k kafka (e ∷ es) v = elim (Bool-cases (leb (suc (length es)) k)) [
  | inl y ↦ rw y v
  | inr n ↦ rw n (AllSent-oldest k kafka es v.1)
]
