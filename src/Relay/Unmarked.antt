-- ===== src/Relay/Unmarked.antt =====
-- The scripts of redisengine/engine.go mark no idempotency record as acknowledged.
use live_auction.Common.{
  ℕ, ◌≡◌, refl, some, inl, inr, Bool-cases, Option-cases, ◌==◌, ◌||◌, is_none, update, arith,
}
use live_auction.Engine.Data.{
  append_acked, StateHash, Keyspace, BidArgs, ConfirmArgs, EngineResult, Call,
}
use live_auction.Engine.State.{Live, seeded, is_incomplete}
use live_auction.Engine.Place.{
  Verdict, fail, refuse, hold, take, replay_of, held_token, held_result, hold_bid, decide_bid,
  place_on, place_new, place,
}
use live_auction.Engine.Store.{idem_record}
use live_auction.Engine.Confirm.{
  confirm_replay, token_error, accept_confirm, decide_confirm, confirm_on, confirm_new, confirm,
}
use live_auction.Engine.Run.{Op, bid, confirmation, step}

-- Whatever is acknowledged was acknowledged before.
abbrev pub NoneMarked : Keyspace → Keyspace → Type 0
NoneMarked ks ks' =
    (j : ℕ)
    → (ks'.idem j).kafka_append_status ≡ some append_acked
    → (ks.idem j).kafka_append_status ≡ some append_acked

-- A call that stores a result, or leaves the records.
stored-NoneMarked :
    (c : Call) (r : EngineResult) (ks ks' : Keyspace)
    → ks'.idem ≡ update ks.idem c.client_bid_id (idem_record c r)
    → NoneMarked ks ks'
unfolding idem_record
stored-NoneMarked c r ks ks' e j h = elim (Bool-cases (j == c.client_bid_id)) [
  | inl own ↦ absurd (cc (rw (e, own) at h))
  | inr other ↦ rw (e, other) at h
]

kept-NoneMarked : (ks ks' : Keyspace) → ks'.idem ≡ ks.idem → NoneMarked ks ks'
kept-NoneMarked ks ks' e j h = rw e at h

decide_bid-NoneMarked :
    (v : Verdict) (a : BidArgs) (h : StateHash) (s : Live) (ks : Keyspace)
    → NoneMarked ks (decide_bid v a h s ks).1
unfolding decide_bid hold_bid
decide_bid-NoneMarked (fail code detail) a h s ks = kept-NoneMarked ks ks refl
decide_bid-NoneMarked (refuse reason) a h s ks =
    stored-NoneMarked a.call _ ks (decide_bid (refuse reason) a h s ks).1 refl
decide_bid-NoneMarked hold a h s ks =
    stored-NoneMarked a.call
      (held_result a s (held_token (ks.pending_confirm a.user_id a.client_bid_id) a.call).0) ks
      (decide_bid hold a h s ks).1 (ground arith)
decide_bid-NoneMarked take a h s ks =
    stored-NoneMarked a.call _ ks (decide_bid take a h s ks).1 refl

place_on-NoneMarked :
    (a : BidArgs) (h : StateHash) (ks : Keyspace) → NoneMarked ks (place_on a h ks).1
unfolding place_on
place_on-NoneMarked a h ks = elim (Bool-cases (is_incomplete h)) [
  | inl bad ↦ rw (bad, place_on) (kept-NoneMarked ks ks refl)
  | inr good ↦ rw (good, place_on) (decide_bid-NoneMarked _ a h _ ks)
]

place_new-NoneMarked : (a : BidArgs) (ks : Keyspace) → NoneMarked ks (place_new a ks).1
unfolding place_new
place_new-NoneMarked a ks = elim (Option-cases (seeded a ks)) [
  | inl none_there ↦ rw (none_there, place_new) (kept-NoneMarked ks ks refl)
  | inr ((h, ks'), there) ↦
      let same : ks'.idem ≡ ks.idem = unfold seeded in (ground (arith, there)) in
      rw (there, place_new) (λ j e. rw same at (place_on-NoneMarked a h ks' j e))
]

place-NoneMarked : (a : BidArgs) (ks : Keyspace) → NoneMarked ks (place a ks).1
unfolding place
place-NoneMarked a ks = elim (Option-cases (replay_of (ks.idem a.client_bid_id) a.request_hash)) [
  | inl new ↦ rw (new, place) (place_new-NoneMarked a ks)
  | inr (answer, old) ↦ rw (old, place) (kept-NoneMarked ks ks refl)
]

decide_confirm-NoneMarked :
    (v : Verdict) (a : ConfirmArgs) (h : StateHash) (s : Live) (ks : Keyspace)
    → NoneMarked ks (decide_confirm v a h s ks).1
unfolding decide_confirm accept_confirm
decide_confirm-NoneMarked (fail code detail) a h s ks = kept-NoneMarked ks ks refl
decide_confirm-NoneMarked (refuse reason) a h s ks =
    stored-NoneMarked a.call _ ks (decide_confirm (refuse reason) a h s ks).1 refl
decide_confirm-NoneMarked hold a h s ks =
    stored-NoneMarked a.call _ ks (decide_confirm hold a h s ks).1 refl
decide_confirm-NoneMarked take a h s ks =
    stored-NoneMarked a.call _ ks (decide_confirm take a h s ks).1 refl

confirm_on-NoneMarked :
    (a : ConfirmArgs) (h : StateHash) (ks : Keyspace) → NoneMarked ks (confirm_on a h ks).1
unfolding confirm_on
confirm_on-NoneMarked a h ks =
    elim (Bool-cases (is_none h.status || is_none h.current_price_cents)) [
      | inl bad ↦ rw (bad, confirm_on) (kept-NoneMarked ks ks refl)
      | inr good ↦ rw (good, confirm_on) (decide_confirm-NoneMarked _ a h _ ks)
    ]

confirm_new-NoneMarked : (a : ConfirmArgs) (ks : Keyspace) → NoneMarked ks (confirm_new a ks).1
unfolding confirm_new
confirm_new-NoneMarked a ks =
    elim (Option-cases (token_error (ks.pending_confirm a.user_id a.client_bid_id) a)) [
      | inr (answer, bad) ↦ rw (bad, confirm_new) (kept-NoneMarked ks ks refl)
      | inl good ↦ elim (Option-cases ks.state) [
        | inl gone ↦ rw (good, gone, confirm_new) (kept-NoneMarked ks ks refl)
        | inr (h, there) ↦ rw (good, there, confirm_new) (confirm_on-NoneMarked a h ks)
      ]
    ]

confirm-NoneMarked : (a : ConfirmArgs) (ks : Keyspace) → NoneMarked ks (confirm a ks).1
unfolding confirm
confirm-NoneMarked a ks = elim (Option-cases (confirm_replay (ks.idem a.client_bid_id))) [
  | inl new ↦ rw (new, confirm) (confirm_new-NoneMarked a ks)
  | inr (answer, old) ↦ rw (old, confirm) (kept-NoneMarked ks ks refl)
]

pub step-NoneMarked : (o : Op) (ks : Keyspace) → NoneMarked ks (step o ks).1
unfolding step
step-NoneMarked (bid a) ks = place-NoneMarked a ks
step-NoneMarked (confirmation a) ks = confirm-NoneMarked a ks
