-- ===== src/Hub.antt =====
-- The fan-out of events to WebSocket clients, backend/internal/realtime/hub.go. Every function is what
-- one goroutine does under its locks, one call after the other.
pub mod Queue
pub mod Bounds
pub mod Delivery
mod Tests
use live_auction.Common.{
  ℕ, suc, ◌+◌, Bool, true, false, Option, none, some, List, [], ◌∷◌, ltb, ◌==◌, update, length,
  if◌then◌else◌,
}
use live_auction.Common.Int.{ℤ, pos, pos_part, ltb_ℤ}
use live_auction.Hub.Queue.{
  Subscription, new_subscription, Send, sent, slow, SlowInfo, try_send, close_slow, close, receive,
  release,
}

-- `rooms` lists the subscriptions of an auction, each once; `heap` holds what the pointers point to.
pub record Hub : Type 0 where
  pub rooms : ℕ → List ℕ
  pub heap : ℕ → Subscription
  pub next : ℕ
  pub queue_messages : ℕ
  pub queue_bytes : ℕ

pub record PublishStats : Type 0 where
  pub subscribers : ℕ
  pub enqueued : ℕ
  pub slow_closed : ℕ
  pub payload_bytes : ℕ
  pub max_queue_depth : ℕ
  pub max_queue_bytes : ℕ
  pub slow_max_depth : ℕ
  pub slow_max_bytes : ℕ

-- `NewHubWithOptions`.
unfoldable pub new_hub_with_options : ℤ → ℤ → Hub
new_hub_with_options messages bytes = record {
  rooms = λ _. [];
  heap = λ _. new_subscription;
  next = 0;
  queue_messages = if ltb_ℤ (pos 0) messages then pos_part messages else 256;
  queue_bytes = if ltb_ℤ (pos 0) bytes then pos_part bytes else 1048576;
}

-- `Subscribe`: the new pointer is the second result.
unfoldable pub subscribe : ℕ → Hub → Hub × ℕ
subscribe auction h = (
  record h {
    rooms = update h.rooms auction (h.next ∷ h.rooms auction);
    heap = update h.heap h.next new_subscription;
    next = suc h.next;
  },
  h.next,
)

abbrev pub remove : ℕ → List ℕ → List ℕ
remove i [] = []
remove i (j ∷ js) = let rest = remove i js in if i == j then rest else j ∷ rest

unfoldable pub unsubscribe : ℕ → ℕ → Hub → Hub
unfolding close
unsubscribe auction i h = record h {
  rooms = update h.rooms auction (remove i (h.rooms auction));
  heap = update h.heap i (close (h.heap i));
}

abbrev pub max : ℕ → ℕ → ℕ
max a b = if ltb a b then b else a

-- What the loop of `Publish` adds for one subscription.
unfoldable pub count_send : Send → PublishStats → PublishStats
count_send (sent depth bytes) s = record s {
  max_queue_depth = max s.max_queue_depth depth;
  max_queue_bytes = max s.max_queue_bytes bytes;
  enqueued = s.enqueued + 1;
}
count_send (slow depth bytes info) s = record s {
  max_queue_depth = max s.max_queue_depth depth;
  max_queue_bytes = max s.max_queue_bytes bytes;
  slow_closed = s.slow_closed + 1;
  slow_max_depth = max s.slow_max_depth info.queue_depth;
  slow_max_bytes = max s.slow_max_bytes info.queue_bytes;
}

-- The subscription after its part of the loop: a slow one is closed.
unfoldable pub after_send : Send → Subscription → Subscription
unfolding close_slow
after_send (sent _ _) s = s
after_send (slow _ _ info) s = close_slow info s

unfoldable pub publish_each :
    ℕ → ℕ → List ℕ → List ℕ → PublishStats × (ℕ → Subscription) → PublishStats × (ℕ → Subscription)
unfolding try_send count_send after_send
publish_each messages bytes payload [] acc = acc
publish_each messages bytes payload (i ∷ rest) (stats, heap) =
    let (result, s) = try_send messages payload bytes (heap i) in
    publish_each messages bytes payload rest
      (count_send result stats, update heap i (after_send result s))

abbrev pub no_stats : ℕ → ℕ → PublishStats
no_stats subscribers payload_bytes = record {
  subscribers = subscribers;
  enqueued = 0;
  slow_closed = 0;
  payload_bytes = payload_bytes;
  max_queue_depth = 0;
  max_queue_bytes = 0;
  slow_max_depth = 0;
  slow_max_bytes = 0;
}

-- `Publish`.
unfoldable pub publish : ℕ → List ℕ → Hub → PublishStats × Hub
unfolding publish_each
publish auction payload h =
    let ids = h.rooms auction in
    let (stats, heap) =
      publish_each h.queue_messages h.queue_bytes payload ids
        (no_stats (length ids) (length payload), h.heap) in
    (stats, record h { heap = heap })

-- The consumer's side: the next message of the channel, and its `Ack`.
unfoldable pub consume : ℕ → Hub → Hub
unfolding receive
consume i h = record h { heap = update h.heap i (receive (h.heap i)).1 }

unfoldable pub ack : ℕ → ℕ → Hub → Hub
unfolding release
ack i size h = record h { heap = update h.heap i (release size (h.heap i)) }
