-- ===== src/Outbox/Backoff.antt =====
-- The wait before a failed delivery is tried again: retriableBackoffSeconds and markFailure of
-- backend/internal/outbox/relay.go.
use native.Mathlib.Nat.{mul_assoc, mul_comm, mul-le-mul_left}
use native.Mathlib.Numerals.{unary_clauses}
use live_auction.Common.{
  ℕ, zero, suc, ◌+◌, ◌*◌, ◌^◌, ◌-◌, ◌≤◌, ◌≡◌, refl, ap, subst, ◌∙◌, true, List, [], ◌∷◌, map, min,
  ltb, ◌==◌, inl, inr, Bool-cases, All, arith,
}
use live_auction.Outbox.Data.{
  ErrorClass, redis_unavailable, payload_invalid, publish_timeout, error_unknown, Delivery, Outbox,
}
use live_auction.Outbox.Rows.{
  set_row, is_retriable, base_seconds, double_each, retriable_backoff_seconds, failed_row,
  mark_failure,
}

one_le_pow : (n : ℕ) → 1 ≤ 2 ^ n
one_le_pow zero = omega arith
one_le_pow (suc n) = omega (arith, one_le_pow n)

pow_double : (n b : ℕ) → b * 2 * 2 ^ n ≡ b * 2 ^ suc n
pow_double n b = simp unary_clauses (mul_assoc b 2 (2 ^ n) ∙ ap (λ k. b * k) (mul_comm 2 (2 ^ n)))

pow_grows : (n b : ℕ) → b ≤ b * 2 ^ n
pow_grows n b = omega (arith, mul-le-mul_left b (one_le_pow n))

double_each-min : (n b : ℕ) → min (double_each n b) 30 ≡ min (b * 2 ^ n) 30
unfolding double_each
double_each-min zero b = ground arith
double_each-min (suc n) b = elim (Bool-cases (ltb b 30)) [
  | inl more ↦ rw (more, double_each) (omega (arith, pow_double n b, double_each-min n (b * 2)))
  | inr done ↦ rw (done, double_each) (ground (arith, done, pow_grows (suc n) b))
]

-- `retriableBackoffSeconds` is the base of the error class, doubled for each attempt after the first,
-- and at most 30.
pub retriable_backoff_seconds_lem :
    (c : ErrorClass) (n : ℕ) → retriable_backoff_seconds c n ≡ min (base_seconds c * 2 ^ (n - 1)) 30
unfolding retriable_backoff_seconds
retriable_backoff_seconds_lem c n = ground (arith, double_each-min (n - 1) (base_seconds c))

first_wait : (c : ErrorClass) → min (retriable_backoff_seconds c 1) 30 ≡ base_seconds c
unfolding retriable_backoff_seconds
first_wait redis_unavailable = refl
first_wait payload_invalid = refl
first_wait publish_timeout = refl
first_wait error_unknown = refl

-- The rows that `markFailure` writes, with the wait they have.
waits :
    (d : Delivery) (c : ErrorClass) (now : ℕ) (rows : List Delivery)
    → All
        (λ r. r.outbox_id ≡ d.outbox_id → r.next_attempt_at ≡ now + 1000 * base_seconds c)
        (map (set_row d.outbox_id (failed_row c now)) rows)
unfolding failed_row
waits d c now [] = tt
waits d c now (r ∷ rows) = (
  elim (Bool-cases (r.outbox_id == d.outbox_id)) [
    | inl hit ↦ rw hit (λ same. ap (λ s. now + 1000 * s) (first_wait c))
    | inr miss ↦ rw miss (λ same. absurd (ground (arith, miss, same)))
  ],
  waits d c now rows,
)

-- A retriable failure is tried again after the base time of its error class, 2 s or 1 s, however often
-- the delivery has failed before; `retriableBackoffSeconds` of that number would double the time
-- up to 30 s.
mark_failure-backoff :
    (d : Delivery) (c : ErrorClass) (now : ℕ) (o : Outbox)
    → is_retriable c ≡ true
    → All
        (λ r. r.outbox_id ≡ d.outbox_id → r.next_attempt_at ≡ now + 1000 * base_seconds c)
        (mark_failure d c now o).deliveries
      × ((n : ℕ) → retriable_backoff_seconds c (suc n) ≡ min (base_seconds c * 2 ^ n) 30)
unfolding mark_failure
mark_failure-backoff d c now o again = (
  rw (again, mark_failure) (waits d c now o.deliveries),
  λ n.
      subst (λ (k : ℕ). retriable_backoff_seconds c (suc n) ≡ min (base_seconds c * 2 ^ k) 30)
        (omega arith) (retriable_backoff_seconds_lem c (suc n)),
)
