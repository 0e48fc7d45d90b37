-- ===== src/Engine/Confirm.antt =====
-- `confirmLedgerRunner` of redisengine/engine.go, the script behind `ConfirmBid`: the second step of
-- a bid that the fat-finger guard held back.
use live_auction.Common.{
  ◌+◌, ◌-◌, ◌%◌, Bool, true, false, ◌&&◌, ◌||◌, not, Option, none, some, ltb, ◌==◌, update, is_none,
  if◌then◌else◌,
}
use live_auction.Engine.Data.{
  ResultCode, fat_finger_confirm_required, auction_not_active, auction_ended, rejected_self_leading,
  bid_above_cap, bid_too_low, bid_increment_mismatch, Token, ft, other_text, engine_paused,
  engine_reconciling, confirm_token_invalid, confirm_token_expired, StateHash, IdemHash,
  PendingConfirm, Keyspace, ConfirmArgs, Reply, replay, ok, error,
}
use live_auction.Engine.State.{is_active, is_reconciling, Live, read_hash}
use live_auction.Engine.Store.{
  base_price, store_decision, rejected_result, reject_bid, outcome, accepted_result, accepted_hash,
}
use live_auction.Engine.Place.{Verdict, fail, refuse, take, leads}

abbrev pub is_held : ResultCode → Bool
is_held fat_finger_confirm_required = true
is_held _ = false

abbrev pub token_eq : Token → Token → Bool
token_eq (ft a) (ft b) = a == b
token_eq (other_text a) (other_text b) = a == b
token_eq _ _ = false

-- A result that is no longer held is replayed, whatever the hash of the request is.
unfoldable pub confirm_replay : IdemHash → Option Reply
confirm_replay r = elim r.request_hash [
  | none ↦ none
  | some _ ↦ elim r.result_json [
    | none ↦ none
    | some result ↦ if is_held result.code then none else some (replay result)
  ]
]

-- The checks of the pending-confirm key; `none` lets the script go on.
unfoldable pub token_error : Option PendingConfirm → ConfirmArgs → Option Reply
token_error none a = some (error confirm_token_invalid "pending confirm not found or expired")
token_error (some pc) a =
    if not (token_eq pc.token a.confirm_token)
    then some (error confirm_token_invalid "token mismatch")
    else if ltb pc.expires_at_ms a.now_ms
    then some (error confirm_token_expired "confirm token expired")
    else if not (pc.amount == a.amount)
    then some (error confirm_token_invalid "amount mismatch")
    else none

-- The guards, run again on the state as it is now.
unfoldable pub confirm_verdict : Live → ConfirmArgs → Verdict
unfolding base_price
confirm_verdict s a =
    if s.paused
    then fail engine_paused s.pause_reason
    else if is_reconciling s.status
    then fail engine_reconciling ""
    else if not (is_active s.status)
    then refuse auction_not_active
    else if ltb s.end_at_ms a.now_ms
    then refuse auction_ended
    else if leads s a.user_id
    then refuse rejected_self_leading
    else if ltb 0 s.cap && ltb s.cap a.amount
    then refuse bid_above_cap
    else if ltb a.amount (base_price s + s.increment)
    then refuse bid_too_low
    else if ltb 0 s.increment && not ((a.amount - base_price s) % s.increment == 0)
    then refuse bid_increment_mismatch
    else take

-- `DEL pending_confirm_key`.
unfoldable pub consume_confirm : ConfirmArgs → Keyspace → Keyspace
consume_confirm a ks = record ks {
  pending_confirm =
      update ks.pending_confirm a.user_id
        (update (ks.pending_confirm a.user_id) a.client_bid_id none);
}

unfoldable pub accept_confirm : ConfirmArgs → StateHash → Live → Keyspace → Reply × Keyspace
unfolding outcome accepted_result accepted_hash store_decision consume_confirm
accept_confirm a h s ks =
    let o = outcome a.call s true in
    let result = accepted_result a.call s o none none in
    (
      ok result,
      store_decision a.call result (
          consume_confirm a (record ks {
            state = some (accepted_hash a.call h s o);
            state_ttl_ms = a.state_ttl_ms;
          })),
    )

unfoldable pub decide_confirm :
    Verdict → ConfirmArgs → StateHash → Live → Keyspace → Reply × Keyspace
unfolding reject_bid rejected_result consume_confirm accept_confirm
decide_confirm (fail code detail) a h s ks = (error code detail, ks)
decide_confirm (refuse reason) a h s ks =
    (ok (rejected_result a.call s reason), reject_bid a.call h s reason (consume_confirm a ks))
decide_confirm _ a h s ks = accept_confirm a h s ks

unfoldable pub confirm_on : ConfirmArgs → StateHash → Keyspace → Reply × Keyspace
unfolding confirm_verdict decide_confirm read_hash
confirm_on a h ks =
    if is_none h.status || is_none h.current_price_cents
    then (error engine_reconciling "redis engine state missing for confirm", ks)
    else decide_confirm (confirm_verdict (read_hash h) a) a h (read_hash h) ks

unfoldable pub confirm_new : ConfirmArgs → Keyspace → Reply × Keyspace
unfolding token_error confirm_on
confirm_new a ks = elim (token_error (ks.pending_confirm a.user_id a.client_bid_id) a) [
  | some answer ↦ (answer, ks)
  | none ↦ elim ks.state [
    | none ↦ (error engine_reconciling "redis engine state missing for confirm", ks)
    | some h ↦ confirm_on a h ks
  ]
]

-- The whole script.
unfoldable pub confirm : ConfirmArgs → Keyspace → Reply × Keyspace
unfolding confirm_replay confirm_new
confirm a ks = elim (confirm_replay (ks.idem a.client_bid_id)) [
  | some answer ↦ (answer, ks)
  | none ↦ confirm_new a ks
]
