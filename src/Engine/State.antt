-- ===== src/Engine/State.antt =====
-- How the scripts of redisengine/engine.go seed and read the state hash.
use Prim.Native.String.{String}
use live_auction.Common.{
  ℕ, ◌+◌, ◌*◌, Bool, true, false, ◌||◌, Option, none, some, leb, or_default, is_none, if◌then◌else◌,
}
use live_auction.Engine.Data.{
  EngineStatus, blank, unset, active, reconciling, StateHash, Snapshot, Keyspace, BidArgs,
}

abbrev pub is_blank : EngineStatus → Bool
is_blank blank = true
is_blank _ = false

abbrev pub is_active : EngineStatus → Bool
is_active active = true
is_active _ = false

abbrev pub is_reconciling : EngineStatus → Bool
is_reconciling reconciling = true
is_reconciling _ = false

abbrev pub is_empty : String → Bool
is_empty String.[] = true
is_empty (String.◌∷◌ _ _) = false

-- The ceiling of the soft-close extensions: the snapshot's, or its end plus every extension.
unfoldable pub seed_absolute_end : Snapshot → ℕ
seed_absolute_end d =
    if leb d.absolute_end_ms 0
    then d.end_at_ms + d.max_extend_count * d.extend_by_ms
    else d.absolute_end_ms

unfoldable pub seed_hash : Snapshot → StateHash
unfolding seed_absolute_end
seed_hash d = record {
  status = some d.status;
  current_price_cents = some d.current_price_cents;
  current_winner_id = some d.current_winner_id;
  start_price_cents = some d.start_price_cents;
  increment_cents = some d.increment_cents;
  cap_price_cents = some d.cap_price_cents;
  end_at_ms = some d.end_at_ms;
  extend_window_ms = some d.extend_window_ms;
  extend_by_ms = some d.extend_by_ms;
  max_extend_count = some d.max_extend_count;
  extend_count = some d.extend_count;
  accepted_bid_count = some d.accepted_bid_count;
  seq = some d.seq;
  engine_seq = some d.engine_seq;
  engine_epoch = some d.engine_epoch;
  paused = some d.paused;
  pause_reason = some d.pause_reason;
  requires_postgres = some d.requires_postgres;
  absolute_end_ms = some (seed_absolute_end d);
  fat_finger_threshold_cents = some (or_default d.fat_finger_threshold_cents 0);
}

-- The hash that the bid script works on, and the keys once it is seeded; `none` where the hash is
-- missing and no snapshot came with the call.
unfoldable pub seeded : BidArgs → Keyspace → Option (StateHash × Keyspace)
unfolding seed_hash
seeded a ks = elim ks.state [
  | some h ↦ some (h, ks)
  | none ↦ elim a.state_json [
    | none ↦ none
    | some d ↦
        some (seed_hash d, record ks { state = some (seed_hash d); state_ttl_ms = a.state_ttl_ms })
  ]
]

-- The locals of a script, each with the default that `or` gives a missing field.
pub record Live : Type 0 where
  pub status : EngineStatus
  pub current_price : ℕ
  pub current_winner : Option ℕ
  pub start_price : ℕ
  pub increment : ℕ
  pub cap : ℕ
  pub end_at_ms : ℕ
  pub extend_window_ms : ℕ
  pub extend_by_ms : ℕ
  pub max_extend_count : ℕ
  pub extend_count : ℕ
  pub accepted_bid_count : ℕ
  pub public_seq : ℕ
  pub engine_seq : ℕ
  pub engine_epoch : ℕ
  pub paused : Bool
  pub pause_reason : String
  pub requires_postgres : String
  pub absolute_end_ms : ℕ
  pub fat_finger_threshold : ℕ

unfoldable pub read_hash : StateHash → Live
read_hash h = record {
  status = or_default h.status unset;
  current_price = or_default h.current_price_cents 0;
  current_winner = or_default h.current_winner_id none;
  start_price = or_default h.start_price_cents 0;
  increment = or_default h.increment_cents 0;
  cap = or_default h.cap_price_cents 0;
  end_at_ms = or_default h.end_at_ms 0;
  extend_window_ms = or_default h.extend_window_ms 0;
  extend_by_ms = or_default h.extend_by_ms 0;
  max_extend_count = or_default h.max_extend_count 0;
  extend_count = or_default h.extend_count 0;
  accepted_bid_count = or_default h.accepted_bid_count 0;
  public_seq = or_default h.seq 0;
  engine_seq = or_default h.engine_seq 0;
  engine_epoch = or_default h.engine_epoch 1;
  paused = or_default h.paused false;
  pause_reason = or_default h.pause_reason "";
  requires_postgres = or_default h.requires_postgres "";
  absolute_end_ms = or_default h.absolute_end_ms 0;
  fat_finger_threshold = or_default h.fat_finger_threshold_cents 0;
}

-- The bid script's test for a hash that lost a field it cannot do without.
unfoldable pub is_incomplete : StateHash → Bool
is_incomplete h =
    is_blank (or_default h.status unset)
    || is_none h.current_price_cents
    || is_none h.start_price_cents
    || is_none h.increment_cents
    || is_none h.end_at_ms
    || is_none h.accepted_bid_count
    || is_none h.seq
    || is_none h.engine_seq
    || is_none h.engine_epoch
    || is_none h.paused
