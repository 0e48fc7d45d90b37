-- ===== src/Engine/Effect/Confirm.antt =====
-- A call of the confirm script on a hash that is there has one of the three effects.
use live_auction.Common.{
  ◌≡◌, ◌≢◌, refl, Option, none, some, inl, inr, true, ◌||◌, is_none, Bool-cases, Option-cases,
  arith,
}
use live_auction.Engine.Data.{
  IdemHash, StateHash, Keyspace, Call, PendingConfirm, ConfirmArgs, Reply, replay, ok, error,
}
use live_auction.Engine.State.{Live, read_hash}
use live_auction.Engine.Place.{Verdict, fail, refuse, hold, take}
use live_auction.Engine.Confirm.{
  confirm_replay, token_error, confirm_verdict, decide_confirm, confirm_on, confirm_new, confirm,
}
use live_auction.Engine.Effect.Defs.{Effect, quiet, refused, taken, IsQuiet}
use live_auction.Engine.Effect.Guards.{confirm_verdict-CanTake}

confirm_replay-IsQuiet :
    (c : Call) (ks : Keyspace) (i : IdemHash) (r : Reply)
    → confirm_replay i ≡ some r
    → IsQuiet c ks r
confirm_replay-IsQuiet c ks i (replay _) e = tt
confirm_replay-IsQuiet c ks i (error _ _) e = tt
confirm_replay-IsQuiet c ks i (ok result) e = absurd (unfold confirm_replay in ground arith)

token_error-IsQuiet :
    (c : Call) (ks : Keyspace) (pc : Option PendingConfirm) (a : ConfirmArgs) (r : Reply)
    → token_error pc a ≡ some r
    → IsQuiet c ks r
token_error-IsQuiet c ks pc a (replay _) e = tt
token_error-IsQuiet c ks pc a (error _ _) e = tt
token_error-IsQuiet c ks pc a (ok result) e = absurd (unfold token_error in ground arith)

confirm_verdict-ne-hold : (s : Live) (a : ConfirmArgs) → confirm_verdict s a ≢ hold
unfolding confirm_verdict
confirm_verdict-ne-hold s a h = ground arith

decide_confirm-Effect :
    (v : Verdict) (a : ConfirmArgs) (h : StateHash) (ks : Keyspace)
    → ks.state ≡ some h
    → confirm_verdict (read_hash h) a ≡ v
    → let (r, ks') = decide_confirm v a h (read_hash h) ks in Effect a.call ks h r ks'
unfolding decide_confirm
decide_confirm-Effect (fail code detail) a h ks e g = quiet e refl refl (λ j n. refl) tt
decide_confirm-Effect (refuse reason) a h ks e g =
    refused reason
      (record { answered = refl; stored = refl; logged = refl; awaiting = refl; replayable = refl })
decide_confirm-Effect hold a h ks e g = absurd (confirm_verdict-ne-hold (read_hash h) a g)
decide_confirm-Effect take a h ks e g =
    taken true none none (confirm_verdict-CanTake (read_hash h) a g)
      (record { answered = refl; stored = refl; logged = refl; awaiting = refl; replayable = refl })

confirm_on-Effect :
    (a : ConfirmArgs) (h : StateHash) (ks : Keyspace)
    → ks.state ≡ some h
    → let (r, ks') = confirm_on a h ks in Effect a.call ks h r ks'
unfolding confirm_on
confirm_on-Effect a h ks e = elim (Bool-cases (is_none h.status || is_none h.current_price_cents)) [
  | inl bad ↦ rw (bad, confirm_on) (quiet e refl refl (λ j n. refl) tt)
  | inr good ↦ rw (good, confirm_on) (decide_confirm-Effect _ a h ks e refl)
]

pub confirm_new-eq-confirm_on :
    (a : ConfirmArgs) (h : StateHash) (ks : Keyspace)
    → ks.state ≡ some h
    → token_error (ks.pending_confirm a.user_id a.client_bid_id) a ≡ none
    → confirm_new a ks ≡ confirm_on a h ks
unfolding confirm_new
confirm_new-eq-confirm_on a h ks e good = ground arith

confirm_new-Effect :
    (a : ConfirmArgs) (h : StateHash) (ks : Keyspace)
    → ks.state ≡ some h
    → let (r, ks') = confirm_new a ks in Effect a.call ks h r ks'
unfolding confirm_new
confirm_new-Effect a h ks e =
    elim (Option-cases (token_error (ks.pending_confirm a.user_id a.client_bid_id) a)) [
      | inl good ↦ rw (confirm_new-eq-confirm_on a h ks e good) (confirm_on-Effect a h ks e)
      | inr (answer, bad) ↦
          rw (bad, confirm_new)
            (quiet e refl refl (λ j n. refl)
              (token_error-IsQuiet a.call ks (ks.pending_confirm a.user_id a.client_bid_id) a answer
                bad))
    ]

pub confirm-Effect :
    (a : ConfirmArgs) (h : StateHash) (ks : Keyspace)
    → ks.state ≡ some h
    → let (r, ks') = confirm a ks in Effect a.call ks h r ks'
unfolding confirm
confirm-Effect a h ks e = elim (Option-cases (confirm_replay (ks.idem a.client_bid_id))) [
  | inl new ↦ rw (new, confirm) (confirm_new-Effect a h ks e)
  | inr (answer, old) ↦
      rw (old, confirm)
        (quiet e refl refl (λ j n. refl)
          (confirm_replay-IsQuiet a.call ks (ks.idem a.client_bid_id) answer old))
]
