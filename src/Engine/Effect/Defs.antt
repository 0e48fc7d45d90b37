-- ===== src/Engine/Effect/Defs.antt =====
-- The specification of one call: the facts under which a bid may be taken, what a decision writes,
-- and the three kinds of effect.
use live_auction.Common.{
  ℕ, suc, ◌+◌, ◌-◌, ◌%◌, ◌≤◌, ◌<◌, ◌≡◌, ◌≢◌, Bool, false, Option, some, ◌∷◌, update,
}
use live_auction.Engine.Data.{
  active, BidSource, fat_finger_confirm_required, RejectReason, StateHash, Basis, EngineResult,
  Keyspace, Call, Reply, replay, ok, error,
}
use live_auction.Engine.State.{Live, read_hash}
use live_auction.Engine.Store.{
  base_price, rejected_result, outcome, accepted_result, accepted_hash, idem_record,
}

-- The price rules of a bid that may be accepted.
pub record CanTake (s : Live) (c : Call) : Type 0 where
  pub running : s.paused ≡ false
  pub is_open : s.status ≡ active
  pub in_time : c.now_ms ≤ s.end_at_ms
  pub enough : base_price s + s.increment ≤ c.amount
  pub on_grid : 0 < s.increment → (c.amount - base_price s) % s.increment ≡ 0
  pub under_cap : 0 < s.cap → c.amount ≤ s.cap

-- The decision `result` is answered, logged, pending and stored for replay, over the hash `h'`.
pub record Decided (c : Call) (ks : Keyspace) (h' : StateHash) (result : EngineResult) (r : Reply)
    (ks' : Keyspace) : Type 0 where
  pub answered : r ≡ ok result
  pub stored : ks'.state ≡ some h'
  pub logged :
      ks'.log
      ≡ record {
        engine_seq = result.engine_seq;
        engine_epoch = result.engine_epoch;
        result = result.code;
        auction_id = c.auction_id;
        payload = result;
      }
        ∷ ks.log
  pub awaiting : ks'.pending ≡ update ks.pending result.engine_seq (some result)
  pub replayable : ks'.idem ≡ update ks.idem c.client_bid_id (idem_record c result)

-- An answer that decides nothing. A bid that is held back is stored for replay.
abbrev pub IsQuiet : Call → Keyspace → Reply → Type 0
IsQuiet c ks' (replay _) = Unit
IsQuiet c ks' (ok result) =
    (result.code ≡ fat_finger_confirm_required) × (ks'.idem c.client_bid_id ≡ idem_record c result)
IsQuiet c ks' (error _ _) = Unit

-- The idempotency records of other bids stay as they are.
abbrev pub KeepsOthers : Call → Keyspace → Keyspace → Type 0
KeepsOthers c ks ks' = (j : ℕ) → j ≢ c.client_bid_id → ks'.idem j ≡ ks.idem j

pub data Effect (c : Call) (ks : Keyspace) (h : StateHash) (r : Reply) (ks' : Keyspace)
    : Type 0 where
  quiet :
      ks'.state ≡ some h
      → ks'.log ≡ ks.log
      → ks'.pending ≡ ks.pending
      → KeepsOthers c ks ks'
      → IsQuiet c ks' r
      → Effect c ks h r ks'
  refused :
      (reason : RejectReason)
      → Decided c ks
          (record h { engine_seq = some (suc (read_hash h).engine_seq) })
          (rejected_result c (read_hash h) reason)
          r
          ks'
      → Effect c ks h r ks'
  taken :
      (extends : Bool) (source : Option BidSource) (basis : Option Basis)
      → CanTake (read_hash h) c
      → Decided c ks
          (accepted_hash c h (read_hash h) (outcome c (read_hash h) extends))
          (accepted_result c (read_hash h) (outcome c (read_hash h) extends) source basis)
          r
          ks'
      → Effect c ks h r ks'
