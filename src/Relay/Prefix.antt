-- ===== src/Relay/Prefix.antt =====
-- What a message adds to the decisions that have arrived in Kafka, redisengine/engine.go.
use live_auction.Common.{
  ℕ, suc, ◌+◌, ◌≤◌, min, max, ◌≡◌, ◌≢◌, ◌<◌, refl, sym, ap, ◌∙◌, subst, All, All-weaken, inl, inr,
  true, false, List, [], ◌∷◌, ◌++◌, length, leb, ◌==◌, if◌then◌else◌, Bool-cases, arith,
}
use live_auction.Engine.Data.{EngineResult, LogEntry}
use live_auction.Engine.Run.Order.{Numbered}
use live_auction.Relay.{oldest, entries_above, payloads}
use live_auction.Relay.Oldest.{
  length-oldest, length-payloads, oldest-all, oldest-cons, oldest-oldest,
}

-- The messages of the partition as the settlement takes them: each has the next number.
abbrev pub arrived : ℕ → List EngineResult → List EngineResult
arrived base [] = []
arrived base (m ∷ ms) =
    let rest = arrived base ms in
    if m.engine_seq == suc (base + length rest) then m ∷ rest else rest

pub Numbered-oldest :
    (base n : ℕ) (es : List LogEntry) → Numbered base es → Numbered base (oldest n es)
Numbered-oldest base n [] v = tt
Numbered-oldest base n (e ∷ es) v = elim (Bool-cases (leb (suc (length es)) n)) [
  | inl y ↦ rw y v
  | inr m ↦ rw m (Numbered-oldest base n es v.2)
]

-- The message is the payload of an entry of the log.
abbrev pub IsLogged : List LogEntry → EngineResult → Type 0
IsLogged log m =
    (e : LogEntry) × (es : List LogEntry) × (e ∷ es ≡ oldest (suc (length es)) log)
    × (suc (length es) ≤ length log)
    × (e.payload ≡ m)

-- Every message is a decision of the log, and those with the next number are the `n` oldest decisions.
pub record HasOldest (base n : ℕ) (log : List LogEntry) (kafka : List EngineResult) : Type 0 where
  pub bound : n ≤ length log
  pub same : arrived base kafka ≡ payloads (oldest n log)
  pub known : All (IsLogged log) kafka

module _ {base : ℕ} {log : List LogEntry} {kafka : List EngineResult} where
  pub HasOldest-to : {n m : ℕ} → n ≡ m → HasOldest base n log kafka → HasOldest base m log kafka
  HasOldest-to e v = subst (λ k. HasOldest base k log kafka) e v

  pub length-arrived : {n : ℕ} → HasOldest base n log kafka → length (arrived base kafka) ≡ n
  length-arrived {n} v = rw v.same (length-payloads (oldest n log) ∙ length-oldest n log v.bound)

  -- The next decision, and one that has arrived before.
  next-HasOldest :
      (m : ℕ) (e : LogEntry) (es : List LogEntry)
      → Numbered base (e ∷ es)
      → e ∷ es ≡ oldest (suc (length es)) log
      → es ≡ oldest (length es) log
      → suc (length es) ≤ length log
      → m ≡ length es
      → HasOldest base m log kafka
      → HasOldest base (suc (length es)) log (e.payload ∷ kafka)
  next-HasOldest m e es u s t b at v =
      let next : e.payload.engine_seq == suc (base + length (arrived base kafka)) ≡ true =
        ground (arith, u.0, u.1, length-arrived v, at) in
      record {
        bound = b;
        same = rw next (
            ap (λ r. e.payload ∷ r)
              (v.same ∙ ap (λ k. payloads (oldest k log)) at ∙ sym (ap payloads t))
            ∙ ap payloads s);
        known = ((e, es, s, b, refl), v.known);
      }

  -- One that is not the next: it has arrived before, or is ahead.
  other-HasOldest :
      (m : ℕ) (e : LogEntry) (es : List LogEntry)
      → Numbered base (e ∷ es)
      → e ∷ es ≡ oldest (suc (length es)) log
      → suc (length es) ≤ length log
      → length es ≢ m
      → HasOldest base m log kafka
      → HasOldest base m log (e.payload ∷ kafka)
  other-HasOldest m e es u s b off v =
      let old : e.payload.engine_seq == suc (base + length (arrived base kafka)) ≡ false =
        ground (arith, u.0, u.1, length-arrived v, off) in
      record { bound = v.bound; same = rw old v.same; known = ((e, es, s, b, refl), v.known) }

module _ (base : ℕ) (log : List LogEntry) (kafka : List EngineResult) where
  pub tail :
      (e : LogEntry) (es : List LogEntry)
      → e ∷ es ≡ oldest (suc (length es)) log
      → es ≡ oldest (length es) log
  tail e es s =
      sym (oldest-cons (length es) e es (omega arith) ∙ oldest-all es)
      ∙ ap (oldest (length es)) s
      ∙ oldest-oldest (length es) (suc (length es)) log
      ∙ ap (λ k. oldest k log) (omega arith)

  pub entries_above-HasOldest :
      (n c : ℕ) (es : List LogEntry)
      → HasOldest base n log kafka
      → min c (length es) ≤ n
      → es ≡ oldest (length es) log
      → length es ≤ length log
      → Numbered base es
      → HasOldest base (max n (length es)) log (payloads (entries_above c es) ++ kafka)
  entries_above-HasOldest n c [] v le s b u = HasOldest-to (omega arith) v
  entries_above-HasOldest n c (e ∷ es) v le s b u =
      let rest =
        entries_above-HasOldest n c es v (omega (arith, le)) (tail e es s) (omega (arith, b)) u.2 in
      elim (Bool-cases (leb (suc (length es)) c)) [
        | inl y ↦ rw y (HasOldest-to (ground (arith, y, le)) v)
        | inr m ↦ rw m (elim (Bool-cases (leb n (length es))) [
          | inl y ↦
              HasOldest-to (ground (arith, y)) (
                next-HasOldest (max n (length es)) e es u s (tail e es s) b (ground (arith, y))
                  rest)
          | inr z ↦
              HasOldest-to (ground (arith, z))
                (other-HasOldest (max n (length es)) e es u s b (λ d. ground (arith, z, d)) rest)
        ])
      ]

  -- Messages that are all ahead of what has arrived.
  pub ahead-HasOldest :
      (n c : ℕ) (es : List LogEntry)
      → HasOldest base n log kafka
      → n < c
      → es ≡ oldest (length es) log
      → length es ≤ length log
      → Numbered base es
      → HasOldest base n log (payloads (entries_above c es) ++ kafka)
  ahead-HasOldest n c [] v h s b u = v
  ahead-HasOldest n c (e ∷ es) v h s b u = elim (Bool-cases (leb (suc (length es)) c)) [
    | inl y ↦ rw y v
    | inr m ↦ rw m (
        other-HasOldest n e es u s b (λ d. ground (arith, m, h, d))
          (ahead-HasOldest n c es v h (tail e es s) (omega (arith, b)) u.2))
  ]

-- A decision that the log takes.
pub grow-HasOldest :
    (base n : ℕ) (x : LogEntry) (log : List LogEntry) (kafka : List EngineResult)
    → HasOldest base n log kafka
    → HasOldest base n (x ∷ log) kafka
grow-HasOldest base n x log kafka v = record {
  bound = omega (arith, v.bound);
  same = v.same ∙ ap payloads (sym (oldest-cons n x log v.bound));
  known = All-weaken _ _ grow kafka v.known;
}
  where
    grow : (m : EngineResult) → IsLogged log m → IsLogged (x ∷ log) m
    grow m (e, es, s, b, p) =
        (e, es, s ∙ sym (oldest-cons (suc (length es)) x log b), omega (arith, b), p)
