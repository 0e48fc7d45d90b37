-- ===== src/Outbox/Rows.antt =====
-- The statements of backend/internal/outbox/relay.go on the rows of the outbox.
use live_auction.Common.{
  ℕ, zero, suc, ◌+◌, ◌*◌, ◌-◌, Bool, true, false, ◌&&◌, ◌||◌, not, Option, none, some, List, [],
  ◌∷◌, map, min, ltb, leb, ◌==◌, update, if◌then◌else◌,
}
use live_auction.Outbox.Data.{
  DeliveryStatus, pending, publishing, published, failed, dead, ErrorClass, redis_unavailable,
  payload_invalid, Delivery, Owner, worker, paused_by, Lease, held, Outbox,
}

abbrev pub is_same_worker : ℕ → Owner → Bool
is_same_worker w (worker v) = v == w
is_same_worker w (paused_by _) = false

-- The shard is leased to the worker at this time.
unfoldable pub has_lease : ℕ → ℕ → ℕ → List Lease → Bool
has_lease w now shard [] = false
has_lease w now shard (l ∷ leases) =
    let later = has_lease w now shard leases in
    (l.shard_id == shard && is_same_worker w l.owner_id && ltb now l.lease_until) || later

abbrev pub is_unfinished : DeliveryStatus → Bool
is_unfinished pending = true
is_unfinished failed = true
is_unfinished publishing = true
is_unfinished _ = false

abbrev is_waiting : DeliveryStatus → Bool
is_waiting pending = true
is_waiting failed = true
is_waiting _ = false

abbrev pub is_publishing : DeliveryStatus → Bool
is_publishing publishing = true
is_publishing _ = false

abbrev is_past : Option ℕ → ℕ → Bool
is_past none now = false
is_past (some t) now = ltb t now

-- Due for an attempt, or claimed by a worker whose lock has run out.
unfoldable pub is_ready : ℕ → Delivery → Bool
is_ready now d =
    (is_waiting d.status && leb d.next_attempt_at now)
    || (is_publishing d.status && is_past d.locked_until now)

-- An unfinished delivery of the same auction and shard with a smaller number.
unfoldable pub has_prior : Delivery → List Delivery → Bool
has_prior d [] = false
has_prior d (p ∷ rows) =
    let later = has_prior d rows in
    (p.auction_id == d.auction_id
      && p.shard_id == d.shard_id
      && ltb p.auction_seq d.auction_seq
      && is_unfinished p.status)
    || later

unfoldable pub is_claimable : ℕ → ℕ → Outbox → Delivery → Bool
unfolding has_lease is_ready has_prior
is_claimable w now o d =
    has_lease w now d.shard_id o.leases && is_ready now d && not (has_prior d o.deliveries)

abbrev pub is_older : Delivery → Delivery → Bool
is_older d c =
    ltb d.event_created_at c.event_created_at
    || (d.event_created_at == c.event_created_at && leb d.outbox_id c.outbox_id)

abbrev pub older : Delivery → Option Delivery → Delivery
older d none = d
older d (some c) = if is_older d c then d else c

-- The claimable row that `ORDER BY d.event_created_at, d.outbox_id LIMIT 1` leaves.
unfoldable pub first_claimable : ℕ → ℕ → Outbox → List Delivery → Option Delivery
unfolding is_claimable
first_claimable w now o [] = none
first_claimable w now o (d ∷ rows) =
    let later = first_claimable w now o rows in
    if is_claimable w now o d then some (older d later) else later

-- `UPDATE outbox_delivery … WHERE outbox_id = $1`.
abbrev pub set_row : ℕ → (Delivery → Delivery) → Delivery → Delivery
set_row id f d = if d.outbox_id == id then f d else d

abbrev pub claim_lock_ms : ℕ
claim_lock_ms = 30000

abbrev pub claimed : ℕ → ℕ → Delivery → Delivery
claimed w now d = record d {
  status = publishing;
  locked_by = some w;
  locked_until = some (now + claim_lock_ms);
}

-- `claimOne`, one transaction: the claimed event is in the hands of the worker.
unfoldable pub claim_one : ℕ → ℕ → Outbox → Outbox
unfolding first_claimable
claim_one w now o = elim (first_claimable w now o o.deliveries) [
  | none ↦ o
  | some d ↦ record o {
    deliveries = map (set_row d.outbox_id (claimed w now)) o.deliveries;
    flights = update o.flights w (held d);
  }
]

-- The pipeline of `publish`: the event goes to the history of its auction.
unfoldable pub publish_event : Delivery → Outbox → Outbox
publish_event d o = record o {
  sent = record { auction_id = d.auction_id; seq = d.auction_seq } ∷ o.sent;
}

abbrev pub published_row : ℕ → Delivery → Delivery
published_row now d = record d {
  status = published;
  published_at = some now;
  locked_by = none;
  locked_until = none;
  last_error_class = none;
  last_error_retriable = none;
}

unfoldable pub mark_published : ℕ → ℕ → Outbox → Outbox
mark_published id now o = record o {
  deliveries = map (set_row id (published_row now)) o.deliveries;
}

abbrev pub is_retriable : ErrorClass → Bool
is_retriable payload_invalid = false
is_retriable _ = true

abbrev pub base_seconds : ErrorClass → ℕ
base_seconds redis_unavailable = 2
base_seconds _ = 1

-- The loop of `retriableBackoffSeconds` with the doublings that are left.
unfoldable pub double_each : ℕ → ℕ → ℕ
double_each zero backoff = backoff
double_each (suc n) backoff =
    let more = double_each n (backoff * 2) in if ltb backoff 30 then more else backoff

-- `attempts` below 1 count as 1.
unfoldable pub retriable_backoff_seconds : ErrorClass → ℕ → ℕ
unfolding double_each
retriable_backoff_seconds c attempts =
    let backoff = double_each (attempts - 1) (base_seconds c) in
    if ltb 30 backoff then 30 else backoff

-- The local `attempts` is still 0 when the backoff is computed.
abbrev pub attempts_at_backoff : ℕ
attempts_at_backoff = 0

unfoldable pub failed_row : ErrorClass → ℕ → Delivery → Delivery
unfolding retriable_backoff_seconds
failed_row c now d = record d {
  attempts = d.attempts + 1;
  status = failed;
  next_attempt_at = now + 1000 * min (retriable_backoff_seconds c (attempts_at_backoff + 1)) 30;
  locked_by = none;
  locked_until = none;
  last_error_class = some c;
  last_error_retriable = some true;
}

abbrev pub dead_row : ErrorClass → ℕ → Delivery → Delivery
dead_row c now d = record d {
  attempts = d.attempts + 1;
  status = dead;
  next_attempt_at = now + 1000;
  locked_by = none;
  locked_until = none;
  last_error_class = some c;
  last_error_retriable = some false;
}

-- `markFailure`: a retry, or a dead letter with its anomaly. The notice that publishGapNotice then sends to the
-- clients, best effort and after the commit, is left out.
unfoldable pub mark_failure : Delivery → ErrorClass → ℕ → Outbox → Outbox
unfolding failed_row
mark_failure d c now o =
    if is_retriable c
    then record o { deliveries = map (set_row d.outbox_id (failed_row c now)) o.deliveries }
    else record o {
      deliveries = map (set_row d.outbox_id (dead_row c now)) o.deliveries;
      letters = d.outbox_id ∷ o.letters;
    }

-- `retry_dead_outbox`.
abbrev pub is_dead : DeliveryStatus → Bool
is_dead dead = true
is_dead _ = false

abbrev pub retried_row : ℕ → Delivery → Delivery
retried_row now d =
    if is_dead d.status
    then record d {
      status = pending;
      next_attempt_at = now;
      locked_by = none;
      locked_until = none;
      last_error_class = none;
      last_error_retriable = none;
    }
    else d

unfoldable pub retry_dead_outbox : ℕ → ℕ → Outbox → Outbox
retry_dead_outbox id now o = record o {
  deliveries = map (set_row id (retried_row now)) o.deliveries;
}

-- A lease that the worker may take over: its own, or one that has run out.
abbrev renewed : ℕ → ℕ → Lease → Lease
renewed w until l = record l { owner_id = worker w; lease_until = until }

unfoldable pub renew_lease : ℕ → ℕ → ℕ → ℕ → List Lease → List Lease
renew_lease w now ttl shard [] =
    record { shard_id = shard; owner_id = worker w; lease_until = now + ttl } ∷ []
renew_lease w now ttl shard (l ∷ leases) =
    let later = renew_lease w now ttl shard leases in
    if l.shard_id == shard
    then (if is_same_worker w l.owner_id || leb l.lease_until now
        then renewed w (now + ttl) l ∷ leases
        else l ∷ leases)
    else l ∷ later

-- `renewShardLeases`: every shard with an unfinished delivery.
unfoldable pub renew_each : ℕ → ℕ → ℕ → List Delivery → List Lease → List Lease
unfolding renew_lease
renew_each w now ttl [] leases = leases
renew_each w now ttl (d ∷ rows) leases =
    renew_each w now ttl rows
      (if is_unfinished d.status then renew_lease w now ttl d.shard_id leases else leases)

unfoldable pub renew_shard_leases : ℕ → ℕ → ℕ → Outbox → Outbox
unfolding renew_each
renew_shard_leases w now ttl o = record o { leases = renew_each w now ttl o.deliveries o.leases }

unfoldable pub pause_lease : ℕ → ℕ → ℕ → List Lease → List Lease
pause_lease w now shard [] =
    record { shard_id = shard; owner_id = paused_by w; lease_until = now + 300000 } ∷ []
pause_lease w now shard (l ∷ leases) =
    let later = pause_lease w now shard leases in
    if l.shard_id == shard
    then record l { owner_id = paused_by w; lease_until = now + 300000 } ∷ leases
    else l ∷ later

abbrev is_paused : Owner → Bool
is_paused (paused_by _) = true
is_paused (worker _) = false

unfoldable pub resume_lease : ℕ → List Lease → List Lease
resume_lease shard [] = []
resume_lease shard (l ∷ leases) =
    let later = resume_lease shard leases in
    if l.shard_id == shard && is_paused l.owner_id then later else l ∷ later
