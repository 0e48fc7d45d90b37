-- ===== src/Outbox/Run.antt =====
-- Any run of the workers of backend/internal/outbox/relay.go keeps the order of an auction's events.
use live_auction.Common.{ℕ, List, [], ◌∷◌, inl, inr, Bool-cases}
use live_auction.Outbox.Data.{Outbox}
use live_auction.Outbox.Rows.{renew_shard_leases}
use live_auction.Outbox.{
  RelayEvent, commit, renew, claim, push, finish, fail, drop, retry_dead, pause_shard, resume_shard,
  is_idle, step_outbox, run_outbox, empty_outbox,
}
use live_auction.Outbox.Keys.{NoGap}
use live_auction.Outbox.Orderly.{IsOrderly, leases-IsOrderly, flight-IsOrderly}
use live_auction.Outbox.Steps.{claim_one-IsOrderly, push_flight-IsOrderly, finish_flight-IsOrderly}
use live_auction.Outbox.Failures.{fail_flight-IsOrderly, retry_dead_outbox-IsOrderly}
use live_auction.Outbox.Enqueued.{enqueue-IsOrderly}

empty_outbox-IsOrderly : (shard_of : ℕ → ℕ) → IsOrderly shard_of empty_outbox
unfolding empty_outbox
empty_outbox-IsOrderly shard_of = record {
  sharded = tt;
  numbered = tt;
  keyed = tt;
  below = tt;
  finished = tt;
  flying = λ w. tt;
  ordered = tt;
  logged = tt;
}

step_outbox-IsOrderly :
    (shard_of : ℕ → ℕ) (e : RelayEvent) (o : Outbox)
    → IsOrderly shard_of o
    → IsOrderly shard_of (step_outbox shard_of e o)
unfolding step_outbox
step_outbox-IsOrderly shard_of (commit auction now) o v = enqueue-IsOrderly shard_of auction now o v
step_outbox-IsOrderly shard_of (renew w now ttl) o v =
    unfold renew_shard_leases in leases-IsOrderly shard_of _ o v
step_outbox-IsOrderly shard_of (claim w now) o v = elim (Bool-cases (is_idle (o.flights w))) [
  | inl free ↦ rw (free, step_outbox) (claim_one-IsOrderly shard_of w now o v)
  | inr taken ↦ rw (taken, step_outbox) v
]
step_outbox-IsOrderly shard_of (push w) o v =
    push_flight-IsOrderly shard_of w (o.flights w) o (v.flying w) v
step_outbox-IsOrderly shard_of (finish w now) o v =
    finish_flight-IsOrderly shard_of w now (o.flights w) o (v.flying w) v
step_outbox-IsOrderly shard_of (fail w c now) o v =
    fail_flight-IsOrderly shard_of w c now (o.flights w) o v
step_outbox-IsOrderly shard_of (drop w) o v = flight-IsOrderly shard_of w _ o tt v
step_outbox-IsOrderly shard_of (retry_dead id now) o v =
    retry_dead_outbox-IsOrderly shard_of id now o v
step_outbox-IsOrderly shard_of (pause_shard w now shard) o v = leases-IsOrderly shard_of _ o v
step_outbox-IsOrderly shard_of (resume_shard shard) o v = leases-IsOrderly shard_of _ o v

run_outbox-IsOrderly :
    (shard_of : ℕ → ℕ) (es : List RelayEvent) (o : Outbox)
    → IsOrderly shard_of o
    → IsOrderly shard_of (run_outbox shard_of es o)
unfolding run_outbox
run_outbox-IsOrderly shard_of [] o v = v
run_outbox-IsOrderly shard_of (e ∷ es) o v =
    run_outbox-IsOrderly shard_of es (step_outbox shard_of e o)
      (step_outbox-IsOrderly shard_of e o v)

-- However many workers claim, stall, fail and come back, and however their steps interleave: whenever
-- an event of an auction is pushed to the history, every event of the auction with a smaller number
-- was pushed before it or has been given up with a dead letter. One that was given up may still be
-- pushed later, when its dead letter is retried.
pub run_outbox-NoGap :
    (shard_of : ℕ → ℕ) (es : List RelayEvent)
    → let o = run_outbox shard_of es empty_outbox in NoGap o.letters o.deliveries o.sent
run_outbox-NoGap shard_of es =
    (run_outbox-IsOrderly shard_of es empty_outbox (empty_outbox-IsOrderly shard_of)).ordered
