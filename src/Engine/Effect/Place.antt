-- ===== src/Engine/Effect/Place.antt =====
-- A call of the bid script on a hash that is there has one of the three effects.
use live_auction.Common.{ℕ, ◌≡◌, refl, some, inl, inr, Bool-cases, Option-cases, arith}
use live_auction.Engine.Data.{
  IdemHash, StateHash, Keyspace, Call, BidArgs, Reply, replay, ok, error,
}
use live_auction.Engine.State.{read_hash, is_incomplete}
use live_auction.Engine.Place.{
  Verdict, fail, refuse, hold, take, replay_of, place_verdict, hold_bid, decide_bid, place_on,
  place_new, place,
}
use live_auction.Engine.Effect.Defs.{Effect, quiet, refused, taken, IsQuiet}
use live_auction.Engine.Effect.Guards.{place_verdict-CanTake}

replay_of-IsQuiet :
    (c : Call) (ks : Keyspace) (i : IdemHash) (hash : ℕ) (r : Reply)
    → replay_of i hash ≡ some r
    → IsQuiet c ks r
replay_of-IsQuiet c ks i hash (replay _) e = tt
replay_of-IsQuiet c ks i hash (error _ _) e = tt
replay_of-IsQuiet c ks i hash (ok result) e = absurd (unfold replay_of in ground arith)

hold_bid-Effect :
    (a : BidArgs) (h : StateHash) (ks : Keyspace)
    → ks.state ≡ some h
    → let (r, ks') = hold_bid a (read_hash h) ks in Effect a.call ks h r ks'
unfolding hold_bid
hold_bid-Effect a h ks e =
    quiet (ground arith) (ground arith) (ground arith) (λ j n. ground arith) (refl, ground arith)

decide_bid-Effect :
    (v : Verdict) (a : BidArgs) (h : StateHash) (ks : Keyspace)
    → ks.state ≡ some h
    → place_verdict (read_hash h) a (ks.members a.user_id) ≡ v
    → let (r, ks') = decide_bid v a h (read_hash h) ks in Effect a.call ks h r ks'
unfolding decide_bid
decide_bid-Effect (fail code detail) a h ks e g = quiet e refl refl (λ j n. refl) tt
decide_bid-Effect (refuse reason) a h ks e g =
    refused reason
      (record { answered = refl; stored = refl; logged = refl; awaiting = refl; replayable = refl })
decide_bid-Effect hold a h ks e g = hold_bid-Effect a h ks e
decide_bid-Effect take a h ks e g =
    taken _ _ _ (place_verdict-CanTake (read_hash h) a (ks.members a.user_id) g)
      (record { answered = refl; stored = refl; logged = refl; awaiting = refl; replayable = refl })

place_on-Effect :
    (a : BidArgs) (h : StateHash) (ks : Keyspace)
    → ks.state ≡ some h
    → let (r, ks') = place_on a h ks in Effect a.call ks h r ks'
unfolding place_on
place_on-Effect a h ks e = elim (Bool-cases (is_incomplete h)) [
  | inl bad ↦ rw (bad, place_on) (quiet e refl refl (λ j n. refl) tt)
  | inr good ↦ rw (good, place_on) (decide_bid-Effect _ a h ks e refl)
]

-- Where the hash is there the snapshot is not read.
pub place_new-eq-place_on :
    (a : BidArgs) (h : StateHash) (ks : Keyspace)
    → ks.state ≡ some h
    → place_new a ks ≡ place_on a h ks
unfolding place_new
place_new-eq-place_on a h ks e = ground arith

pub place-Effect :
    (a : BidArgs) (h : StateHash) (ks : Keyspace)
    → ks.state ≡ some h
    → let (r, ks') = place a ks in Effect a.call ks h r ks'
unfolding place
place-Effect a h ks e = elim (Option-cases (replay_of (ks.idem a.client_bid_id) a.request_hash)) [
  | inl new ↦ rw (new, place) (rw (place_new-eq-place_on a h ks e) (place_on-Effect a h ks e))
  | inr (answer, old) ↦
      rw (old, place)
        (quiet e refl refl (λ j n. refl)
          (replay_of-IsQuiet a.call ks (ks.idem a.client_bid_id) a.request_hash answer old))
]
