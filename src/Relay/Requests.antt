-- ===== src/Relay/Requests.antt =====
-- What the requests of a batch, AppendBatch of backend/internal/redisengine/kafka_ledger.go, add to Kafka.
use live_auction.Common.{
  ℕ, zero, suc, ◌+◌, ◌≤◌, ◌<◌, min, max, ◌≡◌, sym, ap, ◌∙◌, subst, inl, inr, List, [], ◌∷◌, ◌++◌,
  length, leb, Bool-cases, arith,
}
use live_auction.Engine.Data.{EngineResult, LogEntry}
use live_auction.Engine.Run.Order.{Numbered}
use live_auction.Relay.{oldest, entries_above, payloads, write_times, write_parts, write_acked}
use live_auction.Relay.Oldest.{
  length-oldest, length-oldest_le, oldest-length, oldest-oldest, oldest-payloads,
  oldest-entries_above, entries_above-entries_above, entries_above-payloads,
}
use live_auction.Relay.Prefix.{
  HasOldest, HasOldest-to, Numbered-oldest, entries_above-HasOldest, ahead-HasOldest,
}

-- The messages of the entries from `c` to `t` of the log.
abbrev pub span : ℕ → ℕ → List LogEntry → List EngineResult
span c t log = payloads (entries_above c (oldest t log))

pub oldest-span :
    (k c t : ℕ) (log : List LogEntry) → oldest k (span c t log) ≡ span c (min (c + k) t) log
oldest-span k c t log =
    oldest-payloads k (entries_above c (oldest t log))
    ∙ ap payloads (oldest-entries_above k c (oldest t log))
    ∙ ap (λ es. payloads (entries_above c es)) (oldest-oldest (c + k) t log)

pub entries_above-span :
    (k c t : ℕ) (log : List LogEntry) → entries_above k (span c t log) ≡ span (c + k) t log
entries_above-span k c t log =
    entries_above-payloads k (entries_above c (oldest t log))
    ∙ ap payloads (entries_above-entries_above k c (oldest t log))

-- A span of the log whose start has arrived, or is ahead.
pub span-HasOldest :
    (base n c t : ℕ) (log : List LogEntry) (kafka : List EngineResult)
    → Numbered base log
    → HasOldest base n log kafka
    → min c t ≤ n
    → t ≤ length log
    → HasOldest base (max n t) log (span c t log ++ kafka)
span-HasOldest base n c t log kafka num v le fits =
    let all : length (oldest t log) ≡ t = length-oldest t log fits in
    HasOldest-to (ap (max n) all) (
      entries_above-HasOldest base log kafka n c (oldest t log) v (omega (arith, le, all))
        (ap (λ k. oldest k log) (sym all)) (omega (arith, all, fits))
        (Numbered-oldest base t log num))

-- Decisions from the log, at least as many as before; `t` of them where the start has arrived.
abbrev pub Reaches : ℕ → ℕ → ℕ → ℕ → List LogEntry → List EngineResult → Type 0
Reaches base n c t log kafka = (m : ℕ) × (n ≤ m) × (c ≤ n → t ≤ m) × HasOldest base m log kafka

part-Reaches :
    (base n c t : ℕ) (log : List LogEntry) (kafka : List EngineResult)
    → Numbered base log
    → HasOldest base n log kafka
    → t ≤ length log
    → Reaches base n (min c t) t log (span c t log ++ kafka)
part-Reaches base n c t log kafka num v fits = elim (Bool-cases (leb (min c t) n)) [
  | inl y ↦
      let le : min c t ≤ n = ground (arith, y) in
      (max n t, omega arith, λ _. omega arith, span-HasOldest base n c t log kafka num v le fits)
  | inr z ↦
      let above : n < min c t = ground (arith, z) in
      (
        n,
        omega arith,
        λ le. absurd (omega (arith, le, above)),
        ahead-HasOldest base log kafka n c (oldest t log) v (omega (arith, above))
            (sym (oldest-length t log)) (length-oldest_le t log) (Numbered-oldest base t log num),
      )
]

pub times-Reaches :
    (base n c t j : ℕ) (log : List LogEntry) (kafka : List EngineResult)
    → Numbered base log
    → HasOldest base n log kafka
    → t ≤ length log
    → (m : ℕ) × (n ≤ m)
      × (min c t ≤ n → 1 ≤ j → t ≤ m)
      × HasOldest base m log (write_times j (span c t log) kafka)
times-Reaches base n c t zero log kafka num v fits =
    (n, omega arith, λ _ h. absurd (omega (arith, h)), v)
times-Reaches base n c t (suc j) log kafka num v fits =
    let (m, up, _, v') = times-Reaches base n c t j log kafka num v fits in
    let (m', up', reach, v'') =
      part-Reaches base m c t log (write_times j (span c t log) kafka) num v' fits in
    (m', omega (arith, up, up'), λ le _. reach (omega (arith, le, up)), v'')

-- A request of the batch that is written a number of times.
pub request-Reaches :
    (base n c t k j : ℕ) (log : List LogEntry) (kafka : List EngineResult)
    → Numbered base log
    → HasOldest base n log kafka
    → t ≤ length log
    → (m : ℕ) × (n ≤ m)
      × (min c t ≤ n → 1 ≤ j → min (c + k) t ≤ m)
      × HasOldest base m log (write_times j (oldest k (span c t log)) kafka)
request-Reaches base n c t k j log kafka num v fits =
    let (m, up, reach, v') =
      times-Reaches base n c (min (c + k) t) j log kafka num v (omega (arith, fits)) in
    (
      m,
      up,
      λ le one. reach (omega (arith, le)) one,
      subst (λ p. HasOldest base m log (write_times j p kafka)) (sym (oldest-span k c t log)) v',
    )

pub write_parts-HasOldest :
    (base n c t : ℕ) (ks : List (ℕ × ℕ)) (log : List LogEntry) (kafka : List EngineResult)
    → Numbered base log
    → HasOldest base n log kafka
    → t ≤ length log
    → (m : ℕ) × (n ≤ m) × HasOldest base m log (write_parts ks (span c t log) kafka)
write_parts-HasOldest base n c t [] log kafka num v fits = (n, omega arith, v)
write_parts-HasOldest base n c t ((k, j) ∷ ks) log kafka num v fits =
    let (m, up, _, v') = request-Reaches base n c t k j log kafka num v fits in
    let next = write_times j (oldest k (span c t log)) kafka in
    let (m', up', v'') = write_parts-HasOldest base m (c + k) t ks log next num v' fits in
    (
      m',
      omega (arith, up, up'),
      subst (λ b. HasOldest base m' log (write_parts ks b next))
          (sym (entries_above-span k c t log)) v'',
    )

-- An acknowledged batch has arrived as a whole.
pub write_acked-HasOldest :
    (base n c t : ℕ) (ks : List (ℕ × ℕ)) (log : List LogEntry) (kafka : List EngineResult)
    → Numbered base log
    → HasOldest base n log kafka
    → min c t ≤ n
    → t ≤ length log
    → (m : ℕ) × (n ≤ m) × (t ≤ m) × HasOldest base m log (write_acked ks (span c t log) kafka)
write_acked-HasOldest base n c t [] log kafka num v le fits =
    (max n t, omega arith, omega arith, span-HasOldest base n c t log kafka num v le fits)
write_acked-HasOldest base n c t ((k, j) ∷ ks) log kafka num v le fits =
    let (m, up, reach, v') = request-Reaches base n c t k (suc j) log kafka num v fits in
    let next = write_times (suc j) (oldest k (span c t log)) kafka in
    let reached : min (c + k) t ≤ m = reach le (omega arith) in
    let (m', up', all, v'') =
      write_acked-HasOldest base m (c + k) t ks log next num v' reached fits in
    (
      m',
      omega (arith, up, up'),
      all,
      subst (λ b. HasOldest base m' log (write_acked ks b next))
          (sym (entries_above-span k c t log)) v'',
    )
