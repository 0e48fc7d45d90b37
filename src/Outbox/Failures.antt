-- ===== src/Outbox/Failures.antt =====
-- Failed deliveries and retries of dead letters, backend/internal/outbox/relay.go, keep the invariant of
-- the outbox.
use live_auction.Common.{ℕ, refl, ◌==◌, inl, inr, Bool-cases, All-map, arith}
use live_auction.Outbox.Data.{ErrorClass, Delivery, Flight, idle, held, sent_out, Outbox}
use live_auction.Outbox.Rows.{
  set_row, is_retriable, failed_row, dead_row, mark_failure, is_dead, retried_row,
  retry_dead_outbox,
}
use live_auction.Outbox.{fail_flight}
use live_auction.Outbox.Keys.{has_letter, SameKey, set_row-SameKey}
use live_auction.Outbox.Orderly.{
  IsDone, IsOrderly, rekeyed-IsOrderly, flight-IsOrderly, letter-IsOrderly,
}
use live_auction.Outbox.Steps.{open_rows}

failed-SameKey : (c : ErrorClass) (now : ℕ) (d : Delivery) → SameKey d (failed_row c now d)
unfolding failed_row
failed-SameKey c now d = record { id = refl; auction = refl; number = refl; shard = refl }

dead-SameKey : (c : ErrorClass) (now : ℕ) (d : Delivery) → SameKey d (dead_row c now d)
dead-SameKey c now d = record { id = refl; auction = refl; number = refl; shard = refl }

retried-SameKey : (now : ℕ) (d : Delivery) → SameKey d (retried_row now d)
retried-SameKey now d = elim (Bool-cases (is_dead d.status)) [
  | inl hit ↦ rw hit (record { id = refl; auction = refl; number = refl; shard = refl })
  | inr miss ↦ rw miss (record { id = refl; auction = refl; number = refl; shard = refl })
]

failed_open : (c : ErrorClass) (now : ℕ) (o : Outbox) (d : Delivery) → IsDone o (failed_row c now d)
unfolding failed_row
failed_open c now o d u = cc

pub mark_failure-IsOrderly :
    (shard_of : ℕ → ℕ) (d : Delivery) (c : ErrorClass) (now : ℕ) (o : Outbox)
    → IsOrderly shard_of o
    → IsOrderly shard_of (mark_failure d c now o)
unfolding mark_failure
mark_failure-IsOrderly shard_of d c now o v = elim (Bool-cases (is_retriable c)) [
  | inl again ↦
      rw (again, mark_failure)
        (rekeyed-IsOrderly (set_row d.outbox_id (failed_row c now))
          (set_row-SameKey d.outbox_id (failed_row c now) (failed-SameKey c now)) o shard_of
          (open_rows d.outbox_id (failed_row c now) o (λ p h. failed_open c now o p) v.finished) v)
  | inr given_up ↦
      let l = letter-IsOrderly d.outbox_id o shard_of v in
      rw (given_up, mark_failure)
        (rekeyed-IsOrderly (set_row d.outbox_id (dead_row c now))
          (set_row-SameKey d.outbox_id (dead_row c now) (dead-SameKey c now)) _ shard_of
          (All-map _ _ (set_row d.outbox_id (dead_row c now))
            (λ p h. elim (Bool-cases (p.outbox_id == d.outbox_id)) [
              | inl hit ↦ rw hit (λ u. unfold has_letter in ground (arith, hit))
              | inr miss ↦ rw miss h
            ])
            o.deliveries l.finished)
          l)
]

pub fail_flight-IsOrderly :
    (shard_of : ℕ → ℕ) (w : ℕ) (c : ErrorClass) (now : ℕ) (f : Flight) (o : Outbox)
    → IsOrderly shard_of o
    → IsOrderly shard_of (fail_flight w c now f o)
unfolding fail_flight
fail_flight-IsOrderly shard_of w c now idle o v = v
fail_flight-IsOrderly shard_of w c now (held d) o v =
    flight-IsOrderly shard_of w idle _ tt (mark_failure-IsOrderly shard_of d c now o v)
fail_flight-IsOrderly shard_of w c now (sent_out d) o v =
    flight-IsOrderly shard_of w idle _ tt (mark_failure-IsOrderly shard_of d c now o v)

retried_open : (now : ℕ) (o : Outbox) (d : Delivery) → IsDone o d → IsDone o (retried_row now d)
retried_open now o d h = elim (Bool-cases (is_dead d.status)) [
  | inl hit ↦ rw hit (λ u. cc)
  | inr miss ↦ rw miss h
]

pub retry_dead_outbox-IsOrderly :
    (shard_of : ℕ → ℕ) (id now : ℕ) (o : Outbox)
    → IsOrderly shard_of o
    → IsOrderly shard_of (retry_dead_outbox id now o)
unfolding retry_dead_outbox
retry_dead_outbox-IsOrderly shard_of id now o v =
    rekeyed-IsOrderly (set_row id (retried_row now))
      (set_row-SameKey id (retried_row now) (retried-SameKey now)) o shard_of
      (open_rows id (retried_row now) o (λ p h. retried_open now o p h) v.finished) v
