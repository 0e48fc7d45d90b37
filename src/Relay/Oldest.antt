-- ===== src/Relay/Oldest.antt =====
-- Lists of redisengine/engine.go that grow at their head: the oldest entries and the entries above a position.
use live_auction.Common.{
  ℕ, suc, ◌+◌, ◌-◌, ◌≤◌, min, ◌≡◌, refl, sym, ap, ◌∙◌, inl, inr, true, false, List, [], ◌∷◌, length,
  leb, Bool-cases, arith,
}
use live_auction.Engine.Data.{LogEntry}
use live_auction.Relay.{oldest, entries_above, payloads}

module _ {ℓ} {A : Type ℓ} where
  pub length-oldest_le : (k : ℕ) (es : List A) → length (oldest k es) ≤ length es
  length-oldest_le k [] = omega arith
  length-oldest_le k (e ∷ es) = ground (arith, length-oldest_le k es)

  pub oldest-cons : (n : ℕ) (e : A) (es : List A) → n ≤ length es → oldest n (e ∷ es) ≡ oldest n es
  oldest-cons n e es h = ground (arith, h)

  pub oldest-length : (k : ℕ) (es : List A) → oldest (length (oldest k es)) es ≡ oldest k es
  oldest-length k [] = refl
  oldest-length k (e ∷ es) = elim (Bool-cases (leb (suc (length es)) k)) [
    | inl y ↦ rw y (ground arith)
    | inr n ↦
        let same : oldest k (e ∷ es) ≡ oldest k es = ground (arith, n) in
        ap (λ xs. oldest (length xs) (e ∷ es)) same
        ∙ oldest-cons _ e es (length-oldest_le k es)
        ∙ oldest-length k es
        ∙ sym same
  ]

  pub oldest-all : (es : List A) → oldest (length es) es ≡ es
  oldest-all [] = refl
  oldest-all (e ∷ es) = ground arith

  pub oldest-oldest : (a b : ℕ) (es : List A) → oldest a (oldest b es) ≡ oldest (min a b) es
  oldest-oldest a b [] = refl
  oldest-oldest a b (e ∷ es) = elim (Bool-cases (leb (suc (length es)) b)) [
    | inl y ↦ elim (Bool-cases (leb (suc (length es)) a)) [
      | inl z ↦
          let w : leb (suc (length es)) (min a b) ≡ true = ground (arith, y, z) in
          rw (y, w) (rw z refl)
      | inr z ↦
          let w : leb (suc (length es)) (min a b) ≡ false = ground (arith, z) in
          let at : a ≡ min a b = ground (arith, y, z) in rw (y, w) (rw z (ap (λ k. oldest k es) at))
    ]
    | inr m ↦
        let w : leb (suc (length es)) (min a b) ≡ false = ground (arith, m) in
        rw (m, w) (oldest-oldest a b es)
  ]

  pub length-oldest : (n : ℕ) (es : List A) → n ≤ length es → length (oldest n es) ≡ n
  length-oldest n [] h = omega arith
  length-oldest n (e ∷ es) h = elim (Bool-cases (leb (suc (length es)) n)) [
    | inl y ↦ rw y (ground arith)
    | inr m ↦ rw m (length-oldest n es (ground (arith, m)))
  ]

  pub length-entries_above : (c : ℕ) (es : List A) → length (entries_above c es) ≡ length es - c
  length-entries_above c [] = omega arith
  length-entries_above c (e ∷ es) = ground (arith, length-entries_above c es)

  pub oldest-entries_above :
      (k c : ℕ) (es : List A) → oldest k (entries_above c es) ≡ entries_above c (oldest (c + k) es)
  oldest-entries_above k c [] = refl
  oldest-entries_above k c (e ∷ es) = elim (Bool-cases (leb (suc (length es)) c)) [
    | inl y ↦
        let z : leb (suc (length es)) (c + k) ≡ true = ground (arith, y) in rw (y, z) (rw y refl)
    | inr n ↦ elim (Bool-cases (leb (suc (length es)) (c + k))) [
      | inl y ↦
          let z : leb (suc (length (entries_above c es))) k ≡ true =
            ground (arith, n, y, length-entries_above c es) in
          rw (n, y) (rw (n, z) refl)
      | inr m ↦
          let z : leb (suc (length (entries_above c es))) k ≡ false =
            ground (arith, n, m, length-entries_above c es) in
          rw (n, m) (rw z (oldest-entries_above k c es))
    ]
  ]

module _ {ℓ} {A : Type ℓ} where
  pub entries_above-entries_above :
      (k c : ℕ) (es : List A) → entries_above k (entries_above c es) ≡ entries_above (c + k) es
  entries_above-entries_above k c [] = refl
  entries_above-entries_above k c (e ∷ es) = elim (Bool-cases (leb (suc (length es)) c)) [
    | inl y ↦ let z : leb (suc (length es)) (c + k) ≡ true = ground (arith, y) in rw (y, z) refl
    | inr n ↦ elim (Bool-cases (leb (suc (length es)) (c + k))) [
      | inl y ↦
          let z : leb (suc (length (entries_above c es))) k ≡ true =
            ground (arith, n, y, length-entries_above c es) in
          rw (n, y) (rw z refl)
      | inr m ↦
          let z : leb (suc (length (entries_above c es))) k ≡ false =
            ground (arith, n, m, length-entries_above c es) in
          rw (n, m) (rw z (ap (λ xs. e ∷ xs) (entries_above-entries_above k c es)))
    ]
  ]

pub length-payloads : (es : List LogEntry) → length (payloads es) ≡ length es
length-payloads [] = refl
length-payloads (e ∷ es) = ap suc (length-payloads es)

pub oldest-payloads : (k : ℕ) (es : List LogEntry) → oldest k (payloads es) ≡ payloads (oldest k es)
oldest-payloads k [] = refl
oldest-payloads k (e ∷ es) = elim (Bool-cases (leb (suc (length es)) k)) [
  | inl y ↦ rw (length-payloads es, y) refl
  | inr n ↦ rw (length-payloads es, n) (oldest-payloads k es)
]

pub entries_above-payloads :
    (k : ℕ) (es : List LogEntry) → entries_above k (payloads es) ≡ payloads (entries_above k es)
entries_above-payloads k [] = refl
entries_above-payloads k (e ∷ es) = elim (Bool-cases (leb (suc (length es)) k)) [
  | inl y ↦ rw (length-payloads es, y) refl
  | inr n ↦ rw (length-payloads es, n) (ap (λ xs. e.payload ∷ xs) (entries_above-payloads k es))
]
