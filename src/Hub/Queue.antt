-- ===== src/Hub/Queue.antt =====
-- One `subscription` of backend/internal/realtime/hub.go: its channel, its byte count, and its callback.
use live_auction.Common.{
  ℕ, ◌+◌, ◌-◌, Bool, true, false, ◌&&◌, Option, none, some, List, [], ◌∷◌, ◌++◌, ltb, length,
  if◌then◌else◌,
}

pub data SlowReason : Type 0 where
  pending_bytes pending_messages : SlowReason

-- `SlowConsumerInfo`.
pub record SlowInfo : Type 0 where
  pub reason : SlowReason
  pub queue_depth : ℕ
  pub queue_bytes : ℕ
  pub queue_messages_limit : ℕ
  pub queue_bytes_limit : ℕ
  pub payload_bytes : ℕ

-- `ch` is the buffered channel, oldest message first; a message is its bytes. `slowed` holds the calls
-- of `onSlow`.
pub record Subscription : Type 0 where
  pub ch : List (List ℕ)
  pub closed : Bool
  pub queued_bytes : ℕ
  pub slowed : List SlowInfo

abbrev pub new_subscription : Subscription
new_subscription = record { ch = []; closed = false; queued_bytes = 0; slowed = [] }

-- The depth and bytes that `trySend` returns; the last result, `ok`, is false for `slow`.
pub data Send : Type 0 where
  sent : ℕ → ℕ → Send
  slow : ℕ → ℕ → SlowInfo → Send

abbrev slow_info : SlowReason → ℕ → List ℕ → ℕ → Subscription → SlowInfo
slow_info reason messages payload max_bytes s = record {
  reason = reason;
  queue_depth = length s.ch;
  queue_bytes = s.queued_bytes;
  queue_messages_limit = messages;
  queue_bytes_limit = max_bytes;
  payload_bytes = length payload;
}

-- `trySend`, on a channel with room for `messages`.
unfoldable pub try_send : ℕ → List ℕ → ℕ → Subscription → Send × Subscription
try_send messages payload max_bytes s =
    if s.closed
    then (sent (length s.ch) s.queued_bytes, s)
    else if ltb 0 max_bytes && ltb max_bytes (s.queued_bytes + length payload)
    then (
      slow (length s.ch) s.queued_bytes (slow_info pending_bytes messages payload max_bytes s),
      s,
    )
    else if ltb (length s.ch) messages
    then (
      sent (length (s.ch ++ payload ∷ [])) (s.queued_bytes + length payload),
      record s { ch = s.ch ++ payload ∷ []; queued_bytes = s.queued_bytes + length payload },
    )
    else (
      slow (length s.ch) s.queued_bytes (slow_info pending_messages messages payload max_bytes s),
      s,
    )

-- `closeSlow`.
unfoldable pub close_slow : SlowInfo → Subscription → Subscription
close_slow info s = if s.closed then s else record s { closed = true; slowed = info ∷ s.slowed }

unfoldable pub close : Subscription → Subscription
close s = if s.closed then s else record s { closed = true }

-- A receive from the channel.
unfoldable pub receive : Subscription → Option (List ℕ) × Subscription
receive s = elim s.ch [ [] ↦ (none, s) | m ∷ rest ↦ (some m, record s { ch = rest }) ]

-- `release`: the count of bytes stops at 0, as ℕ does.
unfoldable pub release : ℕ → Subscription → Subscription
release size s = if ltb 0 size then record s { queued_bytes = s.queued_bytes - size } else s
