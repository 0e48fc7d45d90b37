-- ===== src/Outbox/Tests.antt =====
-- The relay of backend/internal/outbox/relay.go with two workers and two events of one auction.
use live_auction.Common.{ℕ, ◌≡◌, refl, true, none, some, List, [], ◌∷◌, ◌++◌, map}
use live_auction.Outbox.Data.{
  published, failed, redis_unavailable, DeliveryStatus, Delivery, idle, Outbox,
}
use live_auction.Outbox.{
  RelayEvent, commit, renew, claim, push, finish, fail, step_outbox, run_outbox, empty_outbox,
}
use live_auction.Outbox.Keys.{NoGap}
use live_auction.Outbox.Run.{run_outbox-NoGap}

-- Worker 1 claims the first event and stalls until its lock has run out; worker 2 delivers both
-- events, and worker 1 pushes the first one again.
abbrev stalled_worker : List RelayEvent
stalled_worker =
    commit 1 0
    ∷ commit 1 10
    ∷ renew 1 100 5000
    ∷ claim 1 100
    ∷ claim 2 200
    ∷ renew 2 40000 5000
    ∷ claim 2 40000
    ∷ push 2
    ∷ finish 2 40010
    ∷ claim 2 40020
    ∷ push 2
    ∷ finish 2 40030
    ∷ push 1
    ∷ []

abbrev one_shard : ℕ → ℕ
one_shard _ = 3

abbrev history : Outbox → List ℕ
history o = map (λ e. e.seq) o.sent

abbrev statuses : Outbox → List DeliveryStatus
statuses o = map (λ d. d.status) o.deliveries

stalled_history : history (run_outbox one_shard stalled_worker empty_outbox) ≡ 1 ∷ 2 ∷ 1 ∷ []
unfolding run_outbox empty_outbox step_outbox
stalled_history = refl

-- The second event waits while the first one is not done.
first_waits :
    history (
      run_outbox one_shard
        (commit 1 0 ∷ commit 1 10 ∷ renew 1 20 5000 ∷ claim 1 20 ∷ claim 2 20 ∷ push 2 ∷ [])
        empty_outbox)
    ≡ []
unfolding run_outbox empty_outbox step_outbox
first_waits = refl

-- The error of a worker that lost its lock opens an event again that another worker published.
reopened :
    statuses
      (run_outbox one_shard (stalled_worker ++ (fail 1 redis_unavailable 40040 ∷ [])) empty_outbox)
    ≡ published ∷ failed ∷ []
unfolding run_outbox empty_outbox step_outbox
reopened = refl

run_outbox-NoGap_example :
    let o = run_outbox one_shard stalled_worker empty_outbox in NoGap o.letters o.deliveries o.sent
run_outbox-NoGap_example = run_outbox-NoGap one_shard stalled_worker

abbrev tried_often : Delivery
tried_often = record {
  outbox_id = 1;
  auction_id = 1;
  auction_seq = 1;
  shard_id = 3;
  event_created_at = 0;
  status = failed;
  attempts = 4;
  next_attempt_at = 100;
  locked_by = none;
  locked_until = none;
  published_at = none;
  last_error_class = some redis_unavailable;
  last_error_retriable = some true;
}

abbrev outbox_of_one : Outbox
outbox_of_one = record {
  deliveries = tried_often ∷ [];
  leases = [];
  letters = [];
  seq = λ _. 1;
  next_id = 2;
  sent = [];
  flights = λ _. idle;
}
