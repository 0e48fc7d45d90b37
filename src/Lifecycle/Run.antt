-- ===== src/Lifecycle/Run.antt =====
-- Runs of the operations of auction/repository.go: the auctions stay well formed, and a room has one active and
-- one narrating auction.
use live_auction.Common.{
  ℕ, ◌≡◌, refl, inl, inr, Bool, true, false, Option, none, some, List, [], ◌∷◌, Bool-cases, All,
}
use live_auction.Common.Int.{pos}
use live_auction.Rules.{out_of}
use live_auction.Lifecycle.Data.{CreateAuctionInput, LifeEnv, LifeError, Lot}
use live_auction.Lifecycle.{
  Written, create_op, rules_op, schedule_op, unschedule_op, start_op, narrate_op, silence_op,
  cancel_op, shorten_op, end_op, LifeOp, transact, inserted, created, create_auction, rule_input,
  validate_rule_against_auction, step_life, run_life, narrate_stop,
}
use live_auction.Lifecycle.Rows.{Ensures, transact-All}
use live_auction.Lifecycle.Sound.{IsSound}
use live_auction.Lifecycle.Kept.{
  schedule-IsSound, unschedule-IsSound, update_rules-IsSound, start-IsSound, cancel-IsSound,
  end_lot-IsSound, narrate_stop-IsSound, narrate_start-IsSound, shorten_active_auction-IsSound,
  new_lot-IsSound,
}

-- A transaction of the operations with its conditions before it.
handled :
    (id : ℕ) (f : Lot → Written) (ls : List Lot)
    → ((l : Lot) → IsSound l → Ensures IsSound (f l))
    → All IsSound ls
    → All IsSound (transact id f ls).1
handled id f ls h v = transact-All IsSound id f ls (λ l at s. h l s) v

create_auction-IsSound :
    (e : LifeEnv) (id : ℕ) (i : CreateAuctionInput) (ls : List Lot)
    → All IsSound ls
    → All IsSound (create_auction e id i ls).1
unfolding create_auction
create_auction-IsSound e id i ls v = when_valid (validate_rule_against_auction _) refl
  where
    stored :
        validate_rule_against_auction
            (rule_input i.start_price_cents i.increment_cents i.cap_price_cents i.rule)
          ≡ none
        → (b : Bool) → All IsSound (inserted e id i ls b).1
    stored h true = (new_lot-IsSound e id i h, v)
    stored h false = v

    when_valid :
        (o : Option LifeError)
        → validate_rule_against_auction
            (rule_input i.start_price_cents i.increment_cents i.cap_price_cents i.rule)
          ≡ o
        → All IsSound (created e id i ls o).1
    when_valid none h = stored h _
    when_valid (some err) h = v

step_life-IsSound :
    (e : LifeEnv) (o : LifeOp) (ls : List Lot) → All IsSound ls → All IsSound (step_life e o ls).1
unfolding step_life
step_life-IsSound e (create_op id i) ls v = create_auction-IsSound e id i ls v
step_life-IsSound e (rules_op id i) ls v = handled id _ ls (update_rules-IsSound e i) v
step_life-IsSound e (schedule_op id at) ls v = handled id _ ls (schedule-IsSound e at) v
step_life-IsSound e (unschedule_op id) ls v = handled id _ ls (unschedule-IsSound e) v
step_life-IsSound e (start_op id) ls v = handled id _ ls (start-IsSound e ls) v
step_life-IsSound e (narrate_op id) ls v = handled id _ ls (narrate_start-IsSound e ls) v
step_life-IsSound e (silence_op id) ls v = handled id (narrate_stop e) ls (narrate_stop-IsSound e) v
step_life-IsSound e (cancel_op id reason) ls v = handled id _ ls (cancel-IsSound e reason) v
step_life-IsSound e (shorten_op id secs) ls v = elim (Bool-cases (out_of (pos 5) (pos 120) secs)) [
  | inl out ↦ rw out v
  | inr within ↦ rw within (handled id _ ls (shorten_active_auction-IsSound e secs) v)
]
step_life-IsSound e (end_op id won) ls v = handled id _ ls (end_lot-IsSound e won) v

-- Through every sequence of the operations, refused ones included, from well-formed auctions: the events of
-- each are numbered from 1 without gaps, each is legal at its place and together they lead to the status; the
-- rules are numbered and the current one is valid with the prices, frozen from SCHEDULED on and not in a
-- DRAFT; and an active auction has a pending END_AUCTION job for its end.
pub run_life-IsSound :
    (os : List (LifeEnv × LifeOp)) (ls : List Lot) → All IsSound ls → All IsSound (run_life os ls)
unfolding run_life
run_life-IsSound [] ls v = v
run_life-IsSound ((e, o) ∷ os) ls v =
    run_life-IsSound os (step_life e o ls).1 (step_life-IsSound e o ls v)
