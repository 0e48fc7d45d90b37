-- ===== src/Lifecycle/Tests.antt =====
-- Two auctions of one room through the operations of auction/repository.go.
use live_auction.Common.{
  ℕ, ◌≡◌, refl, ◌⊎◌, ◌≢◌, true, false, none, some, List, [], ◌∷◌, All, ◌++◌, or_default,
}
use live_auction.Common.Int.{pos, rem_ℤ, ◌+ℤ◌, ◌-ℤ◌}
use live_auction.Rules.{validate_rule, check_cap}
use live_auction.Lifecycle.Data.{
  status_scheduled, status_sold, Rule, CreateAuctionInput, UpdateRulesInput, LifeEnv, Lot,
  invalid_argument, rule_frozen_after_scheduled, conflict_room_has_active_auction,
}
use live_auction.Lifecycle.{
  refused, written, failed, LifeOp, create_op, rules_op, schedule_op, start_op, narrate_op,
  cancel_op, shorten_op, end_op, find_lot, has_other, is_live, start, step_life, run_life,
  create_auction, update_rules, schedule, narrate_start, shorten_active_auction, end_lot, cancel,
  new_lot,
}
use live_auction.Lifecycle.Rows.{find_lot-All}
use live_auction.Lifecycle.Sound.{IsSound}
use live_auction.Lifecycle.Run.{run_life-IsSound}
use live_auction.Lifecycle.Room.{IsIndexed, run_life-IsIndexed}
use live_auction.Lifecycle.Frozen.{IsSettled, run_life-IsSettled}
use live_auction.Lifecycle.Started.{EndsIn, start-EndsIn}

abbrev at : ℕ → LifeEnv
at t = record { now = t; has_room = λ r. true; has_item = λ i. true }

abbrev a_rule : Rule
a_rule = record {
  duration_seconds = pos 60;
  extend_window_seconds = pos 10;
  extend_by_seconds = pos 10;
  max_extend_count = pos 3;
  fat_finger_threshold_cents = none;
  deposit_bps = pos 0;
  deposit_floor_cents = pos 100;
  deposit_cap_cents = pos 100000;
}

abbrev an_input : CreateAuctionInput
an_input = record {
  room_id = 1;
  item_id = 5;
  start_price_cents = pos 1000;
  increment_cents = pos 500;
  cap_price_cents = some (pos 5000);
  rule = a_rule;
}

abbrev new_rules : UpdateRulesInput
new_rules = record {
  start_price_cents = pos 2000;
  increment_cents = pos 500;
  cap_price_cents = none;
  rule = a_rule;
}

-- Both are scheduled; the rules of the second are new, and it narrates.
abbrev opening : List (LifeEnv × LifeOp)
opening =
    (at 10, create_op 1 an_input)
    ∷ (at 20, create_op 2 an_input)
    ∷ (at 30, schedule_op 1 none)
    ∷ (at 40, rules_op 2 new_rules)
    ∷ (at 50, schedule_op 2 (some 9000))
    ∷ (at 60, narrate_op 2)
    ∷ []

abbrev opened : List Lot
opened = run_life (opening ++ ((at 1000, start_op 1) ∷ [])) []

abbrev waiting : List Lot
waiting = run_life opening []

abbrev row_of : ℕ → List Lot → Lot
row_of id ls = or_default (find_lot id ls) (new_lot 0 an_input)

-- The second cannot start beside the first, whose rules and end can no longer change but for an earlier end.
abbrev afterwards : List (LifeEnv × LifeOp)
afterwards =
    (at 2000, start_op 2)
    ∷ (at 3000, rules_op 1 new_rules)
    ∷ (at 4000, shorten_op 1 (pos 20))
    ∷ (at 24000, end_op 1 true)
    ∷ (at 25000, cancel_op 1 7)
    ∷ (at 26000, start_op 2)
    ∷ []

second_waits : (step_life (at 2000) (start_op 2) opened).0 ≡ failed conflict_room_has_active_auction
unfolding run_life step_life create_auction update_rules schedule start narrate_start validate_rule
    check_cap rem_ℤ ◌+ℤ◌ ◌-ℤ◌
second_waits = refl

rules_stay :
    (step_life (at 2000) (rules_op 1 new_rules) opened).0 ≡ failed rule_frozen_after_scheduled
unfolding run_life step_life create_auction update_rules schedule start narrate_start validate_rule
    check_cap rem_ℤ ◌+ℤ◌ ◌-ℤ◌
rules_stay = refl

first_sold : (row_of 1 (run_life afterwards opened)).status ≡ status_sold
unfolding run_life step_life create_auction update_rules schedule start narrate_start
    shorten_active_auction end_lot cancel validate_rule check_cap rem_ℤ ◌+ℤ◌ ◌-ℤ◌
first_sold = refl

second_active : (row_of 2 (run_life afterwards opened)).end_at ≡ some 86000
unfolding run_life step_life create_auction update_rules schedule start narrate_start
    shorten_active_auction end_lot cancel validate_rule check_cap rem_ℤ ◌+ℤ◌ ◌-ℤ◌
second_active = refl

-- `Start` does not ask for the narration that `NarrateStart` keeps for the active auction of the room.
narration_elsewhere : (row_of 1 opened).is_narrating ≡ false
unfolding run_life step_life create_auction update_rules schedule start narrate_start validate_rule
    check_cap rem_ℤ ◌+ℤ◌ ◌-ℤ◌
narration_elsewhere = refl

find_lot-opened : find_lot 1 opened ≡ some (row_of 1 opened)
unfolding run_life step_life create_auction update_rules schedule start narrate_start validate_rule
    check_cap rem_ℤ ◌+ℤ◌ ◌-ℤ◌
find_lot-opened = refl

find_lot-waiting : find_lot 1 waiting ≡ some (row_of 1 waiting)
unfolding run_life step_life create_auction update_rules schedule start narrate_start validate_rule
    check_cap rem_ℤ ◌+ℤ◌ ◌-ℤ◌
find_lot-waiting = refl

row_of-IsSound : IsSound (row_of 1 waiting)
row_of-IsSound = find_lot-All IsSound 1 waiting _ find_lot-waiting (run_life-IsSound opening [] tt)

none-IsIndexed : IsIndexed []
none-IsIndexed = (λ i j x y f g px py r. absurd (cc), λ i j x y f g px py r. absurd (cc))

run_life-IsSound_example : All IsSound (run_life afterwards opened)
run_life-IsSound_example =
    run_life-IsSound afterwards opened
      (run_life-IsSound (opening ++ ((at 1000, start_op 1) ∷ [])) [] tt)

run_life-IsIndexed_example : IsIndexed (run_life afterwards opened)
run_life-IsIndexed_example =
    run_life-IsIndexed afterwards opened
      (run_life-IsIndexed (opening ++ ((at 1000, start_op 1) ∷ [])) [] none-IsIndexed)

run_life-IsSettled_example :
    (l' : Lot) × (find_lot 1 (run_life afterwards opened) ≡ some l')
    × IsSettled (row_of 1 opened) l'
run_life-IsSettled_example =
    run_life-IsSettled afterwards opened 1 (row_of 1 opened) find_lot-opened

start-EndsIn_example :
    (((row_of 1 waiting).status ≢ status_scheduled)
      × (start (at 1000) waiting (row_of 1 waiting) ≡ refused invalid_argument))
    ⊎ (((row_of 1 waiting).status ≡ status_scheduled)
        × (has_other is_live (row_of 1 waiting) waiting ≡ true)
        × (start (at 1000) waiting (row_of 1 waiting) ≡ refused conflict_room_has_active_auction))
    ⊎ (((row_of 1 waiting).status ≡ status_scheduled)
        × (has_other is_live (row_of 1 waiting) waiting ≡ false)
        × (l' : Lot) × (start (at 1000) waiting (row_of 1 waiting) ≡ written l')
        × EndsIn 1000 l')
start-EndsIn_example = start-EndsIn (at 1000) waiting (row_of 1 waiting) row_of-IsSound
