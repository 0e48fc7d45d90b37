-- ===== src/Hub/Bounds.antt =====
-- The bounds of the queues of backend/internal/realtime/hub.go, over any run of its operations.
use live_auction.Common.{
  ℕ, ◌≤◌, ◌<◌, ◌≡◌, false, List, [], ◌∷◌, ◌==◌, update, length, length-append, inl, inr, Bool-cases,
  arith,
}
use live_auction.Common.Int.{ℤ}
use live_auction.Hub.{
  Hub, PublishStats, new_hub_with_options, subscribe, unsubscribe, after_send, publish_each,
  publish, consume, ack,
}
use live_auction.Hub.Queue.{
  Subscription, new_subscription, try_send, close_slow, close, receive, release,
}

-- A queue within its limits, whose client is told of being slow at most once, and not before it is closed.
pub record IsBounded (messages bytes : ℕ) (s : Subscription) : Type 0 where
  pub depth : length s.ch ≤ messages
  pub weight : s.queued_bytes ≤ bytes
  pub told_once : length s.slowed ≤ 1
  pub told_closed : s.closed ≡ false → length s.slowed ≡ 0

new-IsBounded : (messages bytes : ℕ) → IsBounded messages bytes new_subscription
new-IsBounded messages bytes = ground arith

send-IsBounded :
    (messages bytes : ℕ) (payload : List ℕ) (s : Subscription)
    → 0 < bytes
    → IsBounded messages bytes s
    → IsBounded messages bytes
        (after_send (try_send messages payload bytes s).0 (try_send messages payload bytes s).1)
unfolding try_send after_send close_slow
send-IsBounded messages bytes payload s p v =
    ground (arith, v.depth, v.weight, v.told_once, v.told_closed, length-append s.ch (payload ∷ []))

close-IsBounded :
    (messages bytes : ℕ) (s : Subscription)
    → IsBounded messages bytes s
    → IsBounded messages bytes (close s)
unfolding close
close-IsBounded messages bytes s v = ground arith

receive-IsBounded :
    (messages bytes : ℕ) (s : Subscription)
    → IsBounded messages bytes s
    → IsBounded messages bytes (receive s).1
unfolding receive
receive-IsBounded messages bytes s v = ground arith

release-IsBounded :
    (messages bytes size : ℕ) (s : Subscription)
    → IsBounded messages bytes s
    → IsBounded messages bytes (release size s)
unfolding release
release-IsBounded messages bytes size s v = ground arith

-- Every subscription that has ever been made.
abbrev pub Bounded : ℕ → ℕ → (ℕ → Subscription) → Type 0
Bounded messages bytes heap = (i : ℕ) → IsBounded messages bytes (heap i)

update-Bounded :
    (messages bytes : ℕ) (heap : ℕ → Subscription) (i : ℕ) (s : Subscription)
    → Bounded messages bytes heap
    → IsBounded messages bytes s
    → Bounded messages bytes (update heap i s)
update-Bounded messages bytes heap i s v w j = elim (Bool-cases (j == i)) [
  | inl e ↦ rw e w
  | inr n ↦ rw n (v j)
]

publish_each-Bounded :
    (messages bytes : ℕ) (payload : List ℕ) (ids : List ℕ) (stats : PublishStats)
    (heap : ℕ → Subscription)
    → 0 < bytes
    → Bounded messages bytes heap
    → Bounded messages bytes (publish_each messages bytes payload ids (stats, heap)).1
unfolding publish_each
publish_each-Bounded messages bytes payload [] stats heap p v = v
publish_each-Bounded messages bytes payload (i ∷ rest) stats heap p v =
    publish_each-Bounded messages bytes payload rest _ _ p (
      update-Bounded messages bytes heap i _ v
        (send-IsBounded messages bytes payload (heap i) p (v i)))

-- An operation of the hub, by whichever goroutine.
pub data HubOp : Type 0 where
  do_subscribe : ℕ → HubOp
  do_unsubscribe : ℕ → ℕ → HubOp
  do_publish : ℕ → List ℕ → HubOp
  do_consume : ℕ → HubOp
  do_ack : ℕ → ℕ → HubOp

unfoldable pub hub_step : HubOp → Hub → Hub
hub_step (do_subscribe auction) h = (subscribe auction h).0
hub_step (do_unsubscribe auction i) h = unsubscribe auction i h
hub_step (do_publish auction payload) h = (publish auction payload h).1
hub_step (do_consume i) h = consume i h
hub_step (do_ack i size) h = ack i size h

unfoldable pub run_hub : List HubOp → Hub → Hub
run_hub [] h = h
run_hub (o ∷ os) h = run_hub os (hub_step o h)

-- The queues of a hub are within its limits, and it has a limit on bytes.
pub record HubBounded (h : Hub) : Type 0 where
  pub limit : 0 < h.queue_bytes
  pub queues : Bounded h.queue_messages h.queue_bytes h.heap

hub_step-HubBounded : (o : HubOp) (h : Hub) → HubBounded h → HubBounded (hub_step o h)
unfolding hub_step subscribe unsubscribe publish consume ack
hub_step-HubBounded (do_subscribe auction) h v = record {
  limit = v.limit;
  queues = update-Bounded _ _ h.heap h.next new_subscription v.queues (new-IsBounded _ _);
}
hub_step-HubBounded (do_unsubscribe auction i) h v = record {
  limit = v.limit;
  queues = update-Bounded _ _ h.heap i _ v.queues (close-IsBounded _ _ (h.heap i) (v.queues i));
}
hub_step-HubBounded (do_publish auction payload) h v = record {
  limit = v.limit;
  queues = publish_each-Bounded _ _ payload (h.rooms auction) _ h.heap v.limit v.queues;
}
hub_step-HubBounded (do_consume i) h v = record {
  limit = v.limit;
  queues = update-Bounded _ _ h.heap i _ v.queues (receive-IsBounded _ _ (h.heap i) (v.queues i));
}
hub_step-HubBounded (do_ack i size) h v = record {
  limit = v.limit;
  queues =
      update-Bounded _ _ h.heap i _ v.queues (release-IsBounded _ _ size (h.heap i) (v.queues i));
}

run_hub_keeps : (os : List HubOp) (h : Hub) → HubBounded h → HubBounded (run_hub os h)
unfolding run_hub
run_hub_keeps [] h v = v
run_hub_keeps (o ∷ os) h v = run_hub_keeps os (hub_step o h) (hub_step-HubBounded o h v)

-- From a new hub, and whatever is subscribed, unsubscribed, published, consumed and acknowledged, no
-- queue ever has more messages or counts more bytes than its limits, and each client is told at most once
-- that it is slow, and only with its queue closed.
pub run_hub-HubBounded :
    (messages bytes : ℤ) (os : List HubOp)
    → HubBounded (run_hub os (new_hub_with_options messages bytes))
unfolding new_hub_with_options
run_hub-HubBounded messages bytes os =
    run_hub_keeps os _ (record { limit = ground arith; queues = λ i. new-IsBounded _ _ })
