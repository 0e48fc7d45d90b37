-- ===== src/Relay/Turn.antt =====
-- The order of the messages that the relay of backend/internal/redisengine/engine.go writes to Kafka,
-- repetitions included.
use live_auction.Common.{
  ℕ, zero, suc, ◌+◌, ◌≤◌, ◌<◌, min, ◌≡◌, refl, sym, subst, Bool, true, ◌&&◌, List, [], ◌∷◌, ◌++◌,
  length, leb, ◌==◌, Bool-cases, inl, inr, arith,
}
use live_auction.Engine.Data.{EngineResult, LogEntry}
use live_auction.Engine.Run.Order.{Numbered}
use live_auction.Relay.{oldest, entries_above, payloads, write_times, write_parts, write_acked}
use live_auction.Relay.Oldest.{length-oldest, oldest-length, length-oldest_le}
use live_auction.Relay.Prefix.{
  arrived, HasOldest, length-arrived, tail, Numbered-oldest, entries_above-HasOldest,
}
use live_auction.Relay.Requests.{
  span, oldest-span, entries_above-span, times-Reaches, request-Reaches,
}

-- Every message has the number that comes next, or one that has come before.
abbrev pub InTurn : ℕ → List EngineResult → Type 0
InTurn base [] = Unit
InTurn base (m ∷ ms) =
    (base < m.engine_seq) × (m.engine_seq ≤ suc (base + length (arrived base ms))) × InTurn base ms

entries_above-InTurn :
    (base n c : ℕ) (log es : List LogEntry) (kafka : List EngineResult)
    → HasOldest base n log kafka
    → min c (length es) ≤ n
    → es ≡ oldest (length es) log
    → length es ≤ length log
    → Numbered base es
    → InTurn base kafka
    → InTurn base (payloads (entries_above c es) ++ kafka)
entries_above-InTurn base n c log [] kafka v le s b u t = t
entries_above-InTurn base n c log (e ∷ es) kafka v le s b u t =
    let below = tail base log kafka e es s in
    let rest =
      entries_above-HasOldest base log kafka n c es v (omega (arith, le)) below (omega (arith, b))
        u.2 in
    elim (Bool-cases (leb (suc (length es)) c)) [
      | inl y ↦ rw y t
      | inr m ↦ rw m (
        omega (arith, u.0, u.1),
        omega (arith, u.0, u.1, length-arrived rest),
        entries_above-InTurn base n c log es kafka v (omega (arith, le)) below (omega (arith, b))
            u.2 t,
      )
    ]

module _ (base : ℕ) (log : List LogEntry) (num : Numbered base log) where
  span-InTurn :
      (n c t : ℕ) (kafka : List EngineResult)
      → HasOldest base n log kafka
      → min c t ≤ n
      → t ≤ length log
      → InTurn base kafka
      → InTurn base (span c t log ++ kafka)
  span-InTurn n c t kafka v le fits turn =
      let all : length (oldest t log) ≡ t = length-oldest t log fits in
      entries_above-InTurn base n c log (oldest t log) kafka v (omega (arith, le, all))
        (sym (oldest-length t log)) (length-oldest_le t log) (Numbered-oldest base t log num) turn

  times-InTurn :
      (n c t j : ℕ) (kafka : List EngineResult)
      → HasOldest base n log kafka
      → min c t ≤ n
      → t ≤ length log
      → InTurn base kafka
      → InTurn base (write_times j (span c t log) kafka)
  times-InTurn n c t zero kafka v le fits turn = turn
  times-InTurn n c t (suc j) kafka v le fits turn =
      let (m, up, _, v') = times-Reaches base n c t j log kafka num v fits in
      span-InTurn m c t (write_times j (span c t log) kafka) v' (omega (arith, le, up)) fits
        (times-InTurn n c t j kafka v le fits turn)

  request-InTurn :
      (n c t k j : ℕ) (kafka : List EngineResult)
      → HasOldest base n log kafka
      → min c t ≤ n
      → t ≤ length log
      → InTurn base kafka
      → InTurn base (write_times j (oldest k (span c t log)) kafka)
  request-InTurn n c t k j kafka v le fits turn =
      subst (λ p. InTurn base (write_times j p kafka)) (sym (oldest-span k c t log))
        (times-InTurn n c (min (c + k) t) j kafka v (omega (arith, le)) (omega (arith, fits)) turn)

  pub write_acked-InTurn :
      (n c t : ℕ) (ks : List (ℕ × ℕ)) (kafka : List EngineResult)
      → HasOldest base n log kafka
      → min c t ≤ n
      → t ≤ length log
      → InTurn base kafka
      → InTurn base (write_acked ks (span c t log) kafka)
  write_acked-InTurn n c t [] kafka v le fits turn = span-InTurn n c t kafka v le fits turn
  write_acked-InTurn n c t ((k, j) ∷ ks) kafka v le fits turn =
      let (m, up, reach, v') = request-Reaches base n c t k (suc j) log kafka num v fits in
      let next = write_times (suc j) (oldest k (span c t log)) kafka in
      let reached : min (c + k) t ≤ m = reach le (omega arith) in
      subst (λ b. InTurn base (write_acked ks b next)) (sym (entries_above-span k c t log))
        (write_acked-InTurn m (c + k) t ks next v' reached fits
          (request-InTurn n c t k (suc j) kafka v le fits turn))

-- No request of the batch is written, and none after one that is not.
abbrev is_unwritten : List (ℕ × ℕ) → Bool
is_unwritten [] = true
is_unwritten ((k, n) ∷ ks) = n == 0 && is_unwritten ks

abbrev pub stops : List (ℕ × ℕ) → Bool
stops [] = true
stops ((k, zero) ∷ ks) = is_unwritten ks
stops ((k, suc n) ∷ ks) = stops ks

unwritten_same :
    (ks : List (ℕ × ℕ)) (batch kafka : List EngineResult)
    → is_unwritten ks ≡ true
    → write_parts ks batch kafka ≡ kafka
unwritten_same [] batch kafka h = refl
unwritten_same ((k, zero) ∷ ks) batch kafka h = unwritten_same ks (entries_above k batch) kafka h
unwritten_same ((k, suc n) ∷ ks) batch kafka h = ground (arith, h)

pub write_parts-InTurn :
    (base : ℕ) (log : List LogEntry) (num : Numbered base log) (n c t : ℕ) (ks : List (ℕ × ℕ))
    (kafka : List EngineResult)
    → HasOldest base n log kafka
    → min c t ≤ n
    → t ≤ length log
    → stops ks ≡ true
    → InTurn base kafka
    → InTurn base (write_parts ks (span c t log) kafka)
write_parts-InTurn base log num n c t [] kafka v le fits h turn = turn
write_parts-InTurn base log num n c t ((k, zero) ∷ ks) kafka v le fits h turn =
    subst (InTurn base) (sym (unwritten_same ks (entries_above k (span c t log)) kafka h)) turn
write_parts-InTurn base log num n c t ((k, suc j) ∷ ks) kafka v le fits h turn =
    let (m, up, reach, v') = request-Reaches base n c t k (suc j) log kafka num v fits in
    let next = write_times (suc j) (oldest k (span c t log)) kafka in
    let reached : min (c + k) t ≤ m = reach le (omega arith) in
    subst (λ b. InTurn base (write_parts ks b next)) (sym (entries_above-span k c t log))
      (write_parts-InTurn base log num m (c + k) t ks next v' reached fits h
        (request-InTurn base log num n c t k (suc j) kafka v le fits turn))
