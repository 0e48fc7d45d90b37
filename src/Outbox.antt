-- ===== src/Outbox.antt =====
-- The outbox relay, backend/internal/outbox/relay.go: workers claim the events of an auction in the order
-- of their numbers, push them to its history, and mark them. Several workers run at once; a worker may
-- stall or fall at any point between its steps.
pub mod Data
pub mod Rows
pub mod Keys
pub mod Orderly
pub mod Steps
pub mod Failures
pub mod Enqueued
pub mod Run
pub mod Backoff
mod Tests
use live_auction.Common.{ℕ, suc, Bool, true, false, none, List, [], ◌∷◌, update, if◌then◌else◌}
use live_auction.Outbox.Data.{pending, ErrorClass, Delivery, Flight, idle, held, sent_out, Outbox}
use live_auction.Outbox.Rows.{
  claim_one, publish_event, mark_published, mark_failure, retry_dead_outbox, renew_shard_leases,
  pause_lease, resume_lease,
}

-- A committed event: the trigger of outbox_delivery fills in the shard from the auction, `shard_of`,
-- and the event takes the next number of its auction.
abbrev pub new_delivery : (ℕ → ℕ) → ℕ → ℕ → Outbox → Delivery
new_delivery shard_of auction now o = record {
  outbox_id = o.next_id;
  auction_id = auction;
  auction_seq = suc (o.seq auction);
  shard_id = shard_of auction;
  event_created_at = now;
  status = pending;
  attempts = 0;
  next_attempt_at = now;
  locked_by = none;
  locked_until = none;
  published_at = none;
  last_error_class = none;
  last_error_retriable = none;
}

unfoldable pub enqueue : (ℕ → ℕ) → ℕ → ℕ → Outbox → Outbox
enqueue shard_of auction now o = record o {
  deliveries = new_delivery shard_of auction now o ∷ o.deliveries;
  seq = update o.seq auction (suc (o.seq auction));
  next_id = suc o.next_id;
}

-- What happens, by the worker that does it and the time. `processOneAfterLease` is `claim`, then `push`
-- and `finish`, or `fail` where publishing ends with an error; an error may come after the event has
-- reached the history. A worker that falls takes no further step, or loses its
-- event: `drop`.
pub data RelayEvent : Type 0 where
  commit : ℕ → ℕ → RelayEvent
  renew : ℕ → ℕ → ℕ → RelayEvent
  claim : ℕ → ℕ → RelayEvent
  push : ℕ → RelayEvent
  finish : ℕ → ℕ → RelayEvent
  fail : ℕ → ErrorClass → ℕ → RelayEvent
  drop : ℕ → RelayEvent
  retry_dead : ℕ → ℕ → RelayEvent
  pause_shard : ℕ → ℕ → ℕ → RelayEvent
  resume_shard : ℕ → RelayEvent

abbrev land : ℕ → Outbox → Outbox
land w o = record o { flights = update o.flights w idle }

unfoldable pub push_flight : ℕ → Flight → Outbox → Outbox
unfolding publish_event
push_flight w (held d) o =
    let pushed = publish_event d o in
    record pushed { flights = update pushed.flights w (sent_out d) }
push_flight w _ o = o

unfoldable pub finish_flight : ℕ → ℕ → Flight → Outbox → Outbox
unfolding mark_published
finish_flight w now (sent_out d) o = land w (mark_published d.outbox_id now o)
finish_flight w now _ o = o

unfoldable pub fail_flight : ℕ → ErrorClass → ℕ → Flight → Outbox → Outbox
unfolding mark_failure
fail_flight w c now idle o = o
fail_flight w c now (held d) o = land w (mark_failure d c now o)
fail_flight w c now (sent_out d) o = land w (mark_failure d c now o)

abbrev is_idle : Flight → Bool
is_idle idle = true
is_idle _ = false

unfoldable pub step_outbox : (ℕ → ℕ) → RelayEvent → Outbox → Outbox
unfolding enqueue renew_shard_leases claim_one push_flight finish_flight fail_flight
    retry_dead_outbox pause_lease resume_lease
step_outbox shard_of (commit auction now) o = enqueue shard_of auction now o
step_outbox shard_of (renew w now ttl) o = renew_shard_leases w now ttl o
step_outbox shard_of (claim w now) o = if is_idle (o.flights w) then claim_one w now o else o
step_outbox shard_of (push w) o = push_flight w (o.flights w) o
step_outbox shard_of (finish w now) o = finish_flight w now (o.flights w) o
step_outbox shard_of (fail w c now) o = fail_flight w c now (o.flights w) o
step_outbox shard_of (drop w) o = land w o
step_outbox shard_of (retry_dead id now) o = retry_dead_outbox id now o
step_outbox shard_of (pause_shard w now shard) o = record o {
  leases = pause_lease w now shard o.leases;
}
step_outbox shard_of (resume_shard shard) o = record o { leases = resume_lease shard o.leases }

unfoldable pub run_outbox : (ℕ → ℕ) → List RelayEvent → Outbox → Outbox
run_outbox shard_of [] o = o
run_outbox shard_of (e ∷ es) o = run_outbox shard_of es (step_outbox shard_of e o)

unfoldable pub empty_outbox : Outbox
empty_outbox = record {
  deliveries = [];
  leases = [];
  letters = [];
  seq = λ _. 0;
  next_id = 1;
  sent = [];
  flights = λ _. idle;
}
