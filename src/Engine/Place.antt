-- ===== src/Engine/Place.antt =====
-- `ledgerRunner` of redisengine/engine.go, the script behind `PlaceBid`: replay, seed, guards in
-- the script's order, and the four ways that it ends.
use Prim.Native.String.{String}
use live_auction.Common.{
  ℕ, suc, ◌+◌, ◌-◌, ◌%◌, Bool, true, false, ◌&&◌, not, Option, none, some, ltb, leb, ◌==◌, update,
  if◌then◌else◌,
}
use live_auction.Engine.Data.{
  BidSource, manual, auto_max_bid, fat_finger_confirm_required, RejectReason, auction_not_active,
  auction_ended, rejected_self_leading, bid_above_cap, bid_too_low, bid_increment_mismatch,
  settlement_not_required, Token, ft, ErrorCode, idempotency_key_reused, engine_paused,
  engine_reconciling, acl_forbidden, invalid_auction_rule, StateHash, Basis, EngineResult, IdemHash,
  PendingConfirm, Keyspace, Call, BidArgs, Reply, replay, ok, error,
}
use live_auction.Engine.State.{
  is_active, is_reconciling, is_empty, seeded, Live, read_hash, is_incomplete,
}
use live_auction.Engine.Store.{
  base_price, store_result, store_decision, rejected_result, reject_bid, outcome, accepted_result,
  accepted_hash,
}

abbrev pub is_manual : BidSource → Bool
is_manual manual = true
is_manual auto_max_bid = false

-- The answer that an idempotency record gives, if there is one.
unfoldable pub replay_of : IdemHash → ℕ → Option Reply
replay_of r hash = elim r.request_hash [
  | none ↦ none
  | some h ↦
      if h == hash
      then (elim r.result_json [
        | none ↦ some (error engine_paused "idempotency replay record is missing result_json")
        | some result ↦ some (replay result)
      ])
      else some (error idempotency_key_reused "")
]

-- How the guards let a bid end.
pub data Verdict : Type 0 where
  fail : ErrorCode → String → Verdict
  refuse : RejectReason → Verdict
  hold take : Verdict

-- The guards on the amount. Below them `base ≤ amount`, so the subtraction is exact.
unfoldable pub amount_verdict : Live → ℕ → Bool → Verdict
unfolding base_price
amount_verdict s amount asks =
    if ltb 0 s.cap && ltb s.cap amount
    then refuse bid_above_cap
    else if ltb amount (base_price s + s.increment)
    then refuse bid_too_low
    else if not ((amount - base_price s) % s.increment == 0)
    then refuse bid_increment_mismatch
    else if asks
        && ltb 0 s.fat_finger_threshold
        && leb s.fat_finger_threshold (amount - base_price s)
    then hold
    else take

abbrev pub leads : Live → ℕ → Bool
leads s user = elim s.current_winner [ none ↦ false | some w ↦ w == user ]

-- Every guard of the script, in its order; `member` is whether the ACL key has a value.
unfoldable pub place_verdict : Live → BidArgs → Bool → Verdict
place_verdict s a member =
    if s.paused
    then fail engine_paused s.pause_reason
    else if is_reconciling s.status
    then fail engine_reconciling s.pause_reason
    else if not (is_empty s.requires_postgres)
    then fail engine_paused s.requires_postgres
    else if not (is_active s.status)
    then refuse auction_not_active
    else if a.has_acl && not member
    then fail acl_forbidden "user does not have active room membership"
    else if ltb s.end_at_ms a.now_ms
    then refuse auction_ended
    else if leads s a.user_id && is_manual a.bid_source
    then refuse rejected_self_leading
    else if leb s.increment 0
    then fail invalid_auction_rule ""
    else amount_verdict s a.amount (is_manual a.bid_source)

-- The token that is still good for this amount, or a new one, and whether it is new.
unfoldable pub held_token : Option PendingConfirm → Call → Token × Bool
held_token none c = (ft c.bid_id, true)
held_token (some pc) c =
    if pc.amount == c.amount && leb c.now_ms pc.expires_at_ms
    then (pc.token, false)
    else (ft c.bid_id, true)

abbrev pub confirm_window_ms : ℕ
confirm_window_ms = 30000

unfoldable pub held_result : BidArgs → Live → Token → EngineResult
held_result a s token = record {
  code = fat_finger_confirm_required;
  bid_id = a.bid_id;
  auction_id = a.auction_id;
  user_id = a.user_id;
  client_bid_id = a.client_bid_id;
  amount_cents = a.amount;
  seq = s.public_seq;
  engine_seq = s.engine_seq;
  engine_epoch = s.engine_epoch;
  settlement_status = settlement_not_required;
  reject_reason = none;
  current_price_cents = s.current_price;
  current_winner_id = s.current_winner;
  end_at_ms = s.end_at_ms;
  extend_count = none;
  server_time_ms = a.now_ms;
  trace_id = a.trace_id;
  request_hash = a.request_hash;
  source = some a.bid_source;
  confirm_token = some token;
  expires_in_ms = some confirm_window_ms;
  decision_basis = none;
}

abbrev set_pending : Keyspace → ℕ → ℕ → Option PendingConfirm → ℕ → ℕ → Option PendingConfirm
set_pending ks user client v =
    update ks.pending_confirm user (update (ks.pending_confirm user) client v)

-- The fat-finger branch: the bid waits for its confirmation, and the state does not change.
unfoldable pub hold_bid : BidArgs → Live → Keyspace → Reply × Keyspace
unfolding held_token held_result store_result
hold_bid a s ks =
    let (token, fresh) = held_token (ks.pending_confirm a.user_id a.client_bid_id) a.call in
    let asked =
      if fresh
      then record ks {
        pending_confirm = set_pending ks a.user_id a.client_bid_id (
            some (record {
              amount = a.amount;
              token = token;
              expires_at_ms = a.now_ms + confirm_window_ms;
              ttl_ms = confirm_window_ms;
            }));
      }
      else ks in
    (ok (held_result a s token), store_result a.call (held_result a s token) asked)

unfoldable pub place_basis : Live → Basis
unfolding base_price
place_basis s = record {
  previous_price_cents = base_price s;
  required_min_price_cents = base_price s + s.increment;
  current_price_cents = s.current_price;
  reason = none;
  engine_seq = suc s.engine_seq;
}

unfoldable pub accept_bid : BidArgs → StateHash → Live → Keyspace → Reply × Keyspace
unfolding outcome accepted_result accepted_hash place_basis store_decision
accept_bid a h s ks =
    let o = outcome a.call s (is_manual a.bid_source) in
    let result = accepted_result a.call s o (some a.bid_source) (some (place_basis s)) in
    (
      ok result,
      store_decision a.call result
          (record ks { state = some (accepted_hash a.call h s o); state_ttl_ms = a.state_ttl_ms }),
    )

unfoldable pub decide_bid : Verdict → BidArgs → StateHash → Live → Keyspace → Reply × Keyspace
unfolding hold_bid reject_bid rejected_result accept_bid
decide_bid (fail code detail) a h s ks = (error code detail, ks)
decide_bid (refuse reason) a h s ks =
    (ok (rejected_result a.call s reason), reject_bid a.call h s reason ks)
decide_bid hold a h s ks = hold_bid a s ks
decide_bid take a h s ks = accept_bid a h s ks

-- The script after the hash is there.
unfoldable pub place_on : BidArgs → StateHash → Keyspace → Reply × Keyspace
unfolding place_verdict decide_bid read_hash is_incomplete amount_verdict
place_on a h ks =
    if is_incomplete h
    then (error engine_reconciling "redis engine state is incomplete", ks)
    else decide_bid (place_verdict (read_hash h) a (ks.members a.user_id)) a h (read_hash h) ks

unfoldable pub place_new : BidArgs → Keyspace → Reply × Keyspace
unfolding seeded place_on
place_new a ks = elim (seeded a ks) [
  | none ↦
      (error engine_reconciling "redis engine state missing and no postgres snapshot supplied", ks)
  | some (h, seeded_ks) ↦ place_on a h seeded_ks
]

-- The whole script.
unfoldable pub place : BidArgs → Keyspace → Reply × Keyspace
unfolding replay_of place_new
place a ks = elim (replay_of (ks.idem a.client_bid_id) a.request_hash) [
  | some answer ↦ (answer, ks)
  | none ↦ place_new a ks
]
