-- ===== src/Engine/Guards/FatFinger.antt =====
-- The fat-finger guard of redisengine/engine.go: a manual bid that jumps by the threshold or more is
-- taken only by a confirmation, which its token allows once.
use live_auction.Common.{
  ℕ, ◌+◌, ◌≤◌, ◌<◌, ◌≡◌, ◌≢◌, refl, ap, ◌∙◌, Bool, true, Option, none, some, inl, inr, is_none,
  Bool-cases, Option-cases, update, update_self, ◌||◌, arith,
}
use live_auction.Engine.Data.{
  manual, Token, ft, other_text, StateHash, EngineResult, IdemHash, PendingConfirm, Keyspace,
  BidArgs, ConfirmArgs, ok,
}
use live_auction.Engine.State.{Live, read_hash}
use live_auction.Engine.Store.{base_price}
use live_auction.Engine.Place.{Verdict, fail, refuse, hold, take, amount_verdict, place_verdict}
use live_auction.Engine.Effect.{confirm_new-eq-confirm_on}
use live_auction.Engine.Confirm.{
  token_eq, confirm_replay, token_error, decide_confirm, confirm_on, confirm_new, confirm,
}

-- The bid script takes a manual bid only if it stays below a threshold that is set.
place_verdict-take_threshold :
    (s : Live) (a : BidArgs) (member : Bool)
    → place_verdict s a member ≡ take
    → a.bid_source ≡ manual
    → 0 < s.fat_finger_threshold
    → a.amount < base_price s + s.fat_finger_threshold
unfolding place_verdict amount_verdict
place_verdict-take_threshold s a member t m p = ground arith

-- A bid that the bid script holds back is a manual one, at the price that the guard is measured from
-- plus a threshold that is set, or above.
place_verdict-hold_threshold :
    (s : Live) (a : BidArgs) (member : Bool)
    → place_verdict s a member ≡ hold
    → (a.bid_source ≡ manual)
      × (0 < s.fat_finger_threshold)
      × (base_price s + s.fat_finger_threshold ≤ a.amount)
unfolding place_verdict amount_verdict
place_verdict-hold_threshold s a member t = ground arith

token_eq→≡ : (t u : Token) → token_eq t u ≡ true → t ≡ u
token_eq→≡ (ft a) (ft b) h = ground arith
token_eq→≡ (ft a) (other_text b) h = absurd (cc)
token_eq→≡ (other_text a) (ft b) h = absurd (cc)
token_eq→≡ (other_text a) (other_text b) h = ground arith

-- A confirmation that may go on has a pending bid of its amount, with its token, in time.
pub record Allows (pc : PendingConfirm) (a : ConfirmArgs) : Type 0 where
  pub token : pc.token ≡ a.confirm_token
  pub in_time : a.now_ms ≤ pc.expires_at_ms
  pub amount : pc.amount ≡ a.amount

token_error-Allows :
    (o : Option PendingConfirm) (a : ConfirmArgs)
    → token_error o a ≡ none
    → (pc : PendingConfirm) × (o ≡ some pc) × Allows pc a
unfolding token_error
token_error-Allows none a h = absurd (cc)
token_error-Allows (some pc) a h = (pc, refl, ground (arith, token_eq→≡ pc.token a.confirm_token))

confirm_replay-ne-ok : (i : IdemHash) (x : EngineResult) → confirm_replay i ≢ some (ok x)
unfolding confirm_replay
confirm_replay-ne-ok i x h = ground arith

token_error-ne-ok :
    (o : Option PendingConfirm) (a : ConfirmArgs) (x : EngineResult) → token_error o a ≢ some (ok x)
unfolding token_error
token_error-ne-ok o a x h = ground arith

confirm-ok_new :
    (a : ConfirmArgs) (ks : Keyspace) (result : EngineResult)
    → (confirm a ks).0 ≡ ok result
    → confirm a ks ≡ confirm_new a ks
unfolding confirm
confirm-ok_new a ks result h = elim (Option-cases (confirm_replay (ks.idem a.client_bid_id))) [
  | inl new ↦ rw (new, confirm)
  | inr (answer, old) ↦ absurd (
      confirm_replay-ne-ok (ks.idem a.client_bid_id) result
        (old ∙ ap some (rw (old, confirm) at h)))
]

confirm_new-ok_token :
    (a : ConfirmArgs) (ks : Keyspace) (result : EngineResult)
    → (confirm_new a ks).0 ≡ ok result
    → token_error (ks.pending_confirm a.user_id a.client_bid_id) a ≡ none
unfolding confirm_new
confirm_new-ok_token a ks result h =
    elim (Option-cases (token_error (ks.pending_confirm a.user_id a.client_bid_id) a)) [
      | inl good ↦ good
      | inr (answer, bad) ↦
          absurd (token_error-ne-ok _ a result (bad ∙ ap some (rw (bad, confirm_new) at h)))
    ]

consumed :
    (f : ℕ → ℕ → Option PendingConfirm) (u c : ℕ) → update f u (update (f u) c none) u c ≡ none
consumed f u c =
    ap (λ (g : ℕ → Option PendingConfirm). g c) (update_self f u (update (f u) c none))
    ∙ update_self (f u) c none

decide_confirm_consumes :
    (v : Verdict) (a : ConfirmArgs) (h : StateHash) (s : Live) (ks : Keyspace)
    (result : EngineResult)
    → (decide_confirm v a h s ks).0 ≡ ok result
    → (decide_confirm v a h s ks).1.pending_confirm a.user_id a.client_bid_id ≡ none
unfolding decide_confirm
decide_confirm_consumes (fail _ _) a h s ks result e = absurd (cc)
decide_confirm_consumes (refuse _) a h s ks result e =
    consumed ks.pending_confirm a.user_id a.client_bid_id
decide_confirm_consumes hold a h s ks result e =
    consumed ks.pending_confirm a.user_id a.client_bid_id
decide_confirm_consumes take a h s ks result e =
    consumed ks.pending_confirm a.user_id a.client_bid_id

confirm_on_consumes :
    (a : ConfirmArgs) (h : StateHash) (ks : Keyspace) (result : EngineResult)
    → (confirm_on a h ks).0 ≡ ok result
    → (confirm_on a h ks).1.pending_confirm a.user_id a.client_bid_id ≡ none
unfolding confirm_on
confirm_on_consumes a h ks result e =
    elim (Bool-cases (is_none h.status || is_none h.current_price_cents)) [
      | inl bad ↦ absurd (ground (arith, bad, e))
      | inr good ↦
          rw (good, confirm_on)
            (decide_confirm_consumes _ a h (read_hash h) ks result (rw (good, confirm_on) at e))
    ]

confirm_new_consumes :
    (a : ConfirmArgs) (ks : Keyspace) (result : EngineResult)
    → (confirm_new a ks).0 ≡ ok result
    → (confirm_new a ks).1.pending_confirm a.user_id a.client_bid_id ≡ none
unfolding confirm_new
confirm_new_consumes a ks result e = elim (Option-cases ks.state) [
  | inl gone ↦ absurd (ground (arith, gone, e, confirm_new-ok_token a ks result e))
  | inr (h, there) ↦
      let on = confirm_new-eq-confirm_on a h ks there (confirm_new-ok_token a ks result e) in
      rw on (confirm_on_consumes a h ks result (rw on at e))
]

-- A confirmation is decided only with the token of a bid that is held, for its amount and before it
-- runs out, and the decision uses the token up.
pub confirm-ok_Allows :
    (a : ConfirmArgs) (ks : Keyspace) (result : EngineResult)
    → (confirm a ks).0 ≡ ok result
    → ((pc : PendingConfirm) × (ks.pending_confirm a.user_id a.client_bid_id ≡ some pc)
        × Allows pc a)
      × ((confirm a ks).1.pending_confirm a.user_id a.client_bid_id ≡ none)
confirm-ok_Allows a ks result h =
    let new = confirm-ok_new a ks result h in
    let e : (confirm_new a ks).0 ≡ ok result = rw new at h in
    (
      token_error-Allows _ a (confirm_new-ok_token a ks result e),
      rw new (confirm_new_consumes a ks result e),
    )
