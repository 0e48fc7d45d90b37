-- ===== src/Lifecycle/Room.antt =====
-- The unique indices of the table auctions under auction/repository.go: one active and one narrating auction of a room.
use live_auction.Common.{
  ℕ, ◌≡◌, refl, sym, ap, subst, ◌∙◌, ◌⊎◌, inl, inr, Bool, true, false, Option, none, some, List, [],
  ◌∷◌, ◌==◌, Bool-cases, arith,
}
use live_auction.Common.Int.{ℤ, pos}
use live_auction.Rules.{out_of}
use live_auction.Lifecycle.Data.{CreateAuctionInput, UpdateRulesInput, LifeEnv, LifeError, Lot}
use live_auction.Lifecycle.{
  Written, refused, written, create_op, rules_op, schedule_op, unschedule_op, start_op, narrate_op,
  silence_op, cancel_op, shorten_op, end_op, LifeOp, find_lot, store, finish_tx, in_tx, transact,
  inserted, created, create_auction, update_rules, schedule, unschedule, has_other, is_live,
  narrates, start, cancel, shorten_active_auction, narrate_start, narrate_stop, end_lot, step_life,
  run_life,
}
use live_auction.Lifecycle.Rows.{
  Ensures, Ensures-weaken, find_lot-id, find_lot-store, has_other-none,
}

-- No two rows of one room have the property.
abbrev pub IsUnique : (Lot → Bool) → List Lot → Type 0
IsUnique p ls =
    (i j : ℕ) (x y : Lot)
    → find_lot i ls ≡ some x
    → find_lot j ls ≡ some y
    → p x ≡ true
    → p y ≡ true
    → x.room_id ≡ y.room_id
    → i ≡ j

-- The row stays in its room, and has the property only if it had it or no other row there has it.
abbrev Keeps : (Lot → Bool) → List Lot → Lot → Lot → Type 0
Keeps p ls l l' =
    (l'.id ≡ l.id)
    × (l'.room_id ≡ l.room_id)
    × ((p l' ≡ true) → (p l ≡ true) ⊎ (has_other p l ls ≡ false))

store-IsUnique :
    (p : Lot → Bool) (id : ℕ) (ls : List Lot) (l l' : Lot)
    → find_lot id ls ≡ some l
    → Keeps p ls l l'
    → IsUnique p ls
    → IsUnique p (store l' ls)
store-IsUnique p id ls l l' at (same, room, h) u i j x y f g px py r =
    elim (find_lot-store l' i ls x f) [
      | inl (i=, x=) ↦ elim (find_lot-store l' j ls y g) [
        | inl (j=, y=) ↦ i= ∙ sym j=
        | inr (n, g') ↦ beside i j x y i= x= g' px py r
      ]
      | inr (n, f') ↦ elim (find_lot-store l' j ls y g) [
        | inl (j=, y=) ↦ sym (beside j i y x j= y= f' py px (sym r))
        | inr (m, g') ↦ u i j x y f' g' px py r
      ]
    ]
  where
    beside :
        (i j : ℕ) (x y : Lot)
        → i ≡ l'.id
        → x ≡ l'
        → find_lot j ls ≡ some y
        → p x ≡ true
        → p y ≡ true
        → x.room_id ≡ y.room_id
        → i ≡ j
    beside i j x y i= x= g px py r =
        let here : l.id ≡ id = find_lot-id id ls l at in
        let rooms : y.room_id ≡ l.room_id = sym r ∙ ap (λ z. z.room_id) x= ∙ room in
        elim (h (subst (λ z. p z ≡ true) x= px)) [
          | inl held ↦ i= ∙ same ∙ here ∙ u id j l y at g held py (sym rooms)
          | inr free ↦ i= ∙ same ∙ sym (has_other-none p l ls j y free g py rooms)
        ]

transact-IsUnique :
    (p : Lot → Bool) (id : ℕ) (f : Lot → Written) (ls : List Lot)
    → ((l : Lot) → Ensures (Keeps p ls l) (f l))
    → IsUnique p ls
    → IsUnique p (transact id f ls).1
transact-IsUnique p id f ls h u = found (find_lot id ls) refl
  where
    stored :
        (l : Lot)
        → find_lot id ls ≡ some l
        → (w : Written) → Ensures (Keeps p ls l) w
        → IsUnique p (finish_tx ls w).1
    stored l at (refused err) k = u
    stored l at (written l') k = store-IsUnique p id ls l l' at k u

    found : (o : Option Lot) → find_lot id ls ≡ o → IsUnique p (in_tx f ls o).1
    found none at = u
    found (some l) at = stored l at (f l) (h l)

-- A new row without the property, under an id that is not taken.
insert-IsUnique :
    (p : Lot → Bool) (l : Lot) (ls : List Lot) → p l ≡ false → IsUnique p ls → IsUnique p (l ∷ ls)
insert-IsUnique p l ls n u i j x y f g px py r =
    u i j x y (behind i x f px) (behind j y g py) px py r
  where
    behind : (k : ℕ) (z : Lot) → find_lot k (l ∷ ls) ≡ some z → p z ≡ true → find_lot k ls ≡ some z
    behind k z f pz = elim (Bool-cases (l.id == k)) [
      | inl e ↦
          let same : l ≡ z = cc (rw e at f) in
          absurd (cc (n, subst (λ w. p w ≡ true) (sym same) pz))
      | inr e ↦ rw e at f
    ]

-- Both indices at once.
abbrev Both : List Lot → Lot → Lot → Type 0
Both ls l l' = Keeps is_live ls l l' × Keeps narrates ls l l'

update_rules-Both :
    (e : LifeEnv) (i : UpdateRulesInput) (ls : List Lot) (l : Lot)
    → Ensures (Both ls l) (update_rules e i l)
unfolding update_rules
update_rules-Both e i ls l = ground arith

schedule-Both :
    (e : LifeEnv) (at : Option ℕ) (ls : List Lot) (l : Lot) → Ensures (Both ls l) (schedule e at l)
unfolding schedule
schedule-Both e at ls l = ground arith

unschedule-Both : (e : LifeEnv) (ls : List Lot) (l : Lot) → Ensures (Both ls l) (unschedule e l)
unfolding unschedule
unschedule-Both e ls l = ground arith

start-Both : (e : LifeEnv) (ls : List Lot) (l : Lot) → Ensures (Both ls l) (start e ls l)
unfolding start
start-Both e ls l = ground arith

cancel-Both :
    (e : LifeEnv) (reason : ℕ) (ls : List Lot) (l : Lot) → Ensures (Both ls l) (cancel e reason l)
unfolding cancel
cancel-Both e reason ls l = ground arith

shorten_active_auction-Both :
    (e : LifeEnv) (secs : ℤ) (ls : List Lot) (l : Lot)
    → Ensures (Both ls l) (shorten_active_auction e secs l)
unfolding shorten_active_auction
shorten_active_auction-Both e secs ls l = ground arith

narrate_start-Both :
    (e : LifeEnv) (ls : List Lot) (l : Lot) → Ensures (Both ls l) (narrate_start e ls l)
unfolding narrate_start
narrate_start-Both e ls l = ground arith

narrate_stop-Both : (e : LifeEnv) (ls : List Lot) (l : Lot) → Ensures (Both ls l) (narrate_stop e l)
unfolding narrate_stop
narrate_stop-Both e ls l = ground arith

end_lot-Both :
    (e : LifeEnv) (won : Bool) (ls : List Lot) (l : Lot) → Ensures (Both ls l) (end_lot e won l)
unfolding end_lot
end_lot-Both e won ls l = ground arith

-- Both indices hold.
abbrev pub IsIndexed : List Lot → Type 0
IsIndexed ls = IsUnique is_live ls × IsUnique narrates ls

handled :
    (id : ℕ) (f : Lot → Written) (ls : List Lot)
    → ((l : Lot) → Ensures (Both ls l) (f l))
    → IsIndexed ls
    → IsIndexed (transact id f ls).1
handled id f ls h (u, v) = (
  transact-IsUnique is_live id f ls (λ l. Ensures-weaken (Both ls l) _ (λ l' k. k.0) (f l) (h l)) u,
  transact-IsUnique narrates id f ls (λ l. Ensures-weaken (Both ls l) _ (λ l' k. k.1) (f l) (h l))
      v,
)

create_auction-IsIndexed :
    (e : LifeEnv) (id : ℕ) (i : CreateAuctionInput) (ls : List Lot)
    → IsIndexed ls
    → IsIndexed (create_auction e id i ls).1
unfolding create_auction
create_auction-IsIndexed e id i ls (u, v) = when_valid _
  where
    put : (b : Bool) → IsIndexed (inserted e id i ls b).1
    put false = (u, v)
    put true = (insert-IsUnique is_live _ ls refl u, insert-IsUnique narrates _ ls refl v)

    when_valid : (o : Option LifeError) → IsIndexed (created e id i ls o).1
    when_valid (some err) = (u, v)
    when_valid none = put _

step_life-IsIndexed :
    (e : LifeEnv) (o : LifeOp) (ls : List Lot) → IsIndexed ls → IsIndexed (step_life e o ls).1
unfolding step_life
step_life-IsIndexed e (create_op id i) ls v = create_auction-IsIndexed e id i ls v
step_life-IsIndexed e (rules_op id i) ls v = handled id _ ls (update_rules-Both e i ls) v
step_life-IsIndexed e (schedule_op id at) ls v = handled id _ ls (schedule-Both e at ls) v
step_life-IsIndexed e (unschedule_op id) ls v = handled id _ ls (unschedule-Both e ls) v
step_life-IsIndexed e (start_op id) ls v = handled id _ ls (start-Both e ls) v
step_life-IsIndexed e (narrate_op id) ls v = handled id _ ls (narrate_start-Both e ls) v
step_life-IsIndexed e (silence_op id) ls v =
    handled id (narrate_stop e) ls (narrate_stop-Both e ls) v
step_life-IsIndexed e (cancel_op id reason) ls v = handled id _ ls (cancel-Both e reason ls) v
step_life-IsIndexed e (shorten_op id secs) ls v =
    elim (Bool-cases (out_of (pos 5) (pos 120) secs)) [
      | inl out ↦ rw out v
      | inr within ↦ rw within (handled id _ ls (shorten_active_auction-Both e secs ls) v)
    ]
step_life-IsIndexed e (end_op id won) ls v = handled id _ ls (end_lot-Both e won ls) v

-- Through every sequence of the operations, refused ones included, from a table where it holds: no two ids of
-- one room find_lot an active auction, and no two find_lot one that narrates.
pub run_life-IsIndexed :
    (os : List (LifeEnv × LifeOp)) (ls : List Lot) → IsIndexed ls → IsIndexed (run_life os ls)
unfolding run_life
run_life-IsIndexed [] ls v = v
run_life-IsIndexed ((e, o) ∷ os) ls v =
    run_life-IsIndexed os (step_life e o ls).1 (step_life-IsIndexed e o ls v)
