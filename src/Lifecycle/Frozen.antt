-- ===== src/Lifecycle/Frozen.antt =====
-- What the operations of auction/repository.go never change: the rules and prices of an auction that has started,
-- and the outcome of one that is over.
use live_auction.Common.{
  ℕ, ◌≤◌, ◌≡◌, refl, ◌∙◌, subst, inl, inr, Bool, true, false, Option, none, some, List, [], ◌∷◌,
  ◌==◌, is_none, Bool-cases, arith,
}
use live_auction.Common.Int.{ℤ, pos}
use live_auction.Rules.{out_of}
use live_auction.Lifecycle.Data.{CreateAuctionInput, UpdateRulesInput, LifeEnv, LifeError, Lot}
use live_auction.Lifecycle.{
  rank, Written, refused, written, create_op, rules_op, schedule_op, unschedule_op, start_op,
  narrate_op, silence_op, cancel_op, shorten_op, end_op, LifeOp, find_lot, store, finish_tx, in_tx,
  transact, inserted, created, create_auction, update_rules, schedule, unschedule, start, cancel,
  shorten_active_auction, narrate_start, narrate_stop, end_lot, step_life, run_life,
}
use live_auction.Lifecycle.Rows.{Ensures, find_lot-id}

-- The rules and the prices of a started auction, and the status and the end of one that is over.
pub record IsSettled (l l' : Lot) : Type 0 where
  pub id : l'.id ≡ l.id
  pub room : l'.room_id ≡ l.room_id
  pub started : 2 ≤ rank l.status → 2 ≤ rank l'.status
  pub version : 2 ≤ rank l.status → l'.rule_version ≡ l.rule_version
  pub rules : 2 ≤ rank l.status → l'.rules ≡ l.rules
  pub start_price : 2 ≤ rank l.status → l'.start_price_cents ≡ l.start_price_cents
  pub increment : 2 ≤ rank l.status → l'.increment_cents ≡ l.increment_cents
  pub cap : 2 ≤ rank l.status → l'.cap_price_cents ≡ l.cap_price_cents
  pub over : 3 ≤ rank l.status → l'.status ≡ l.status
  pub end : 3 ≤ rank l.status → l'.end_at ≡ l.end_at

IsSettled-refl : (l : Lot) → IsSettled l l
IsSettled-refl l = record {
  id = refl;
  room = refl;
  started = λ h. h;
  version = λ h. refl;
  rules = λ h. refl;
  start_price = λ h. refl;
  increment = λ h. refl;
  cap = λ h. refl;
  over = λ h. refl;
  end = λ h. refl;
}

IsSettled-trans : (a b c : Lot) → IsSettled a b → IsSettled b c → IsSettled a c
IsSettled-trans a b c m n = record {
  id = n.id ∙ m.id;
  room = n.room ∙ m.room;
  started = λ h. n.started (m.started h);
  version = λ h. n.version (m.started h) ∙ m.version h;
  rules = λ h. n.rules (m.started h) ∙ m.rules h;
  start_price = λ h. n.start_price (m.started h) ∙ m.start_price h;
  increment = λ h. n.increment (m.started h) ∙ m.increment h;
  cap = λ h. n.cap (m.started h) ∙ m.cap h;
  over = λ h. n.over (still h) ∙ m.over h;
  end = λ h. n.end (still h) ∙ m.end h;
}
  where
    still : 3 ≤ rank a.status → 3 ≤ rank b.status
    still h = rw (m.over h) h

update_rules-IsSettled :
    (e : LifeEnv) (i : UpdateRulesInput) (l : Lot) → Ensures (IsSettled l) (update_rules e i l)
unfolding update_rules
update_rules-IsSettled e i l = ground arith

schedule-IsSettled :
    (e : LifeEnv) (at : Option ℕ) (l : Lot) → Ensures (IsSettled l) (schedule e at l)
unfolding schedule
schedule-IsSettled e at l = ground arith

unschedule-IsSettled : (e : LifeEnv) (l : Lot) → Ensures (IsSettled l) (unschedule e l)
unfolding unschedule
unschedule-IsSettled e l = ground arith

start-IsSettled : (e : LifeEnv) (ls : List Lot) (l : Lot) → Ensures (IsSettled l) (start e ls l)
unfolding start
start-IsSettled e ls l = ground arith

cancel-IsSettled : (e : LifeEnv) (reason : ℕ) (l : Lot) → Ensures (IsSettled l) (cancel e reason l)
unfolding cancel
cancel-IsSettled e reason l = ground arith

shorten_active_auction-IsSettled :
    (e : LifeEnv) (secs : ℤ) (l : Lot) → Ensures (IsSettled l) (shorten_active_auction e secs l)
unfolding shorten_active_auction
shorten_active_auction-IsSettled e secs l = ground arith

narrate_start-IsSettled :
    (e : LifeEnv) (ls : List Lot) (l : Lot) → Ensures (IsSettled l) (narrate_start e ls l)
unfolding narrate_start
narrate_start-IsSettled e ls l = ground arith

narrate_stop-IsSettled : (e : LifeEnv) (l : Lot) → Ensures (IsSettled l) (narrate_stop e l)
unfolding narrate_stop
narrate_stop-IsSettled e l = ground arith

end_lot-IsSettled : (e : LifeEnv) (won : Bool) (l : Lot) → Ensures (IsSettled l) (end_lot e won l)
unfolding end_lot
end_lot-IsSettled e won l = ground arith

-- The row that an id finds later.
abbrev Later : ℕ → Lot → List Lot → Type 0
Later k l ls = (l' : Lot) × (find_lot k ls ≡ some l') × IsSettled l l'

find_lot-store_new :
    (k : ℕ) (ls : List Lot) (x l : Lot)
    → find_lot k ls ≡ some x
    → l.id ≡ k
    → find_lot k (store l ls) ≡ some l
find_lot-store_new k [] x l f e = absurd (cc)
find_lot-store_new k (y ∷ ys) x l f e = elim (Bool-cases (y.id == k)) [
  | inl h ↦ ground (arith, e, h)
  | inr n ↦
      let other : y.id == l.id ≡ false = ground (arith, e, n) in
      rw (other, n) (find_lot-store_new k ys x l (rw n at f) e)
]

find_lot-store_old :
    (k : ℕ) (ls : List Lot) (x l : Lot)
    → find_lot k ls ≡ some x
    → (l.id == k) ≡ false
    → find_lot k (store l ls) ≡ some x
find_lot-store_old k [] x l f n = absurd (cc)
find_lot-store_old k (y ∷ ys) x l f n = elim (Bool-cases (y.id == k)) [
  | inl h ↦ let other : y.id == l.id ≡ false = ground (arith, n, h) in rw (other, h) (rw h at f)
  | inr m ↦ elim (Bool-cases (y.id == l.id)) [
    | inl g ↦ rw (g, n) (find_lot-store_old k ys x l (rw m at f) n)
    | inr g ↦ rw (g, m) (find_lot-store_old k ys x l (rw m at f) n)
  ]
]

transact-Later :
    (id : ℕ) (f : Lot → Written) (ls : List Lot) (k : ℕ) (l : Lot)
    → ((x : Lot) → Ensures (IsSettled x) (f x))
    → find_lot k ls ≡ some l
    → Later k l (transact id f ls).1
transact-Later id f ls k l h at = found (find_lot id ls) refl
  where
    stored :
        (x : Lot)
        → find_lot id ls ≡ some x
        → (w : Written) → Ensures (IsSettled x) w
        → Later k l (finish_tx ls w).1
    stored x f (refused err) s = (l, at, IsSettled-refl l)
    stored x f (written x') s = elim (Bool-cases (x'.id == k)) [
      | inl e ↦
          let own : x'.id ≡ k = ground (arith, e) in
          let same : x ≡ l = cc (f, at, find_lot-id id ls x f, s.id, own) in
          (x', find_lot-store_new k ls l x' at own, subst (λ z. IsSettled z x') same s)
      | inr n ↦ (l, find_lot-store_old k ls l x' at n, IsSettled-refl l)
    ]

    found : (o : Option Lot) → find_lot id ls ≡ o → Later k l (in_tx f ls o).1
    found none f = (l, at, IsSettled-refl l)
    found (some x) g = stored x g (f x) (h x)

create_auction-Later :
    (e : LifeEnv) (id : ℕ) (i : CreateAuctionInput) (ls : List Lot) (k : ℕ) (l : Lot)
    → find_lot k ls ≡ some l
    → Later k l (create_auction e id i ls).1
unfolding create_auction
create_auction-Later e id i ls k l at = when_valid _
  where
    put :
        (b : Bool)
        → (b ≡ true → is_none (find_lot id ls) ≡ true)
        → Later k l (inserted e id i ls b).1
    put false fresh = (l, at, IsSettled-refl l)
    put true fresh = elim (Bool-cases (id == k)) [
      | inl e ↦ let same : id ≡ k = ground (arith, e) in absurd (cc (fresh refl, same, at))
      | inr n ↦ (l, rw n at, IsSettled-refl l)
    ]

    when_valid : (o : Option LifeError) → Later k l (created e id i ls o).1
    when_valid (some err) = (l, at, IsSettled-refl l)
    when_valid none = put _ (λ h. ground (arith, h))

step_life-Later :
    (e : LifeEnv) (o : LifeOp) (ls : List Lot) (k : ℕ) (l : Lot)
    → find_lot k ls ≡ some l
    → Later k l (step_life e o ls).1
unfolding step_life
step_life-Later e (create_op id i) ls k l at = create_auction-Later e id i ls k l at
step_life-Later e (rules_op id i) ls k l at =
    transact-Later id _ ls k l (update_rules-IsSettled e i) at
step_life-Later e (schedule_op id t) ls k l at =
    transact-Later id _ ls k l (schedule-IsSettled e t) at
step_life-Later e (unschedule_op id) ls k l at =
    transact-Later id _ ls k l (unschedule-IsSettled e) at
step_life-Later e (start_op id) ls k l at = transact-Later id _ ls k l (start-IsSettled e ls) at
step_life-Later e (narrate_op id) ls k l at =
    transact-Later id _ ls k l (narrate_start-IsSettled e ls) at
step_life-Later e (silence_op id) ls k l at =
    transact-Later id (narrate_stop e) ls k l (narrate_stop-IsSettled e) at
step_life-Later e (cancel_op id reason) ls k l at =
    transact-Later id _ ls k l (cancel-IsSettled e reason) at
step_life-Later e (shorten_op id secs) ls k l at =
    elim (Bool-cases (out_of (pos 5) (pos 120) secs)) [
      | inl out ↦ rw out (l, at, IsSettled-refl l)
      | inr within ↦
          rw within (transact-Later id _ ls k l (shorten_active_auction-IsSettled e secs) at)
    ]
step_life-Later e (end_op id won) ls k l at =
    transact-Later id _ ls k l (end_lot-IsSettled e won) at

-- Through every sequence of the operations the id of an auction finds it in its room; once it is ACTIVE its rules,
-- rule version, start price, increment and cap stay what they are, and once it is SOLD, ENDED or CANCELLED so do
-- its status and its end.
pub run_life-IsSettled :
    (os : List (LifeEnv × LifeOp)) (ls : List Lot) (k : ℕ) (l : Lot)
    → find_lot k ls ≡ some l
    → (l' : Lot) × (find_lot k (run_life os ls) ≡ some l') × IsSettled l l'
unfolding run_life
run_life-IsSettled [] ls k l at = (l, at, IsSettled-refl l)
run_life-IsSettled ((e, o) ∷ os) ls k l at =
    let (m, at', first) = step_life-Later e o ls k l at in
    let (l', at'', rest) = run_life-IsSettled os (step_life e o ls).1 k m at' in
    (l', at'', IsSettled-trans l m l' first rest)
