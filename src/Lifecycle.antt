-- ===== src/Lifecycle.antt =====
-- The host's operations on an auction, backend/internal/auction/repository.go, and the terminal transition of
-- backend/internal/scheduler/scheduler.go: each is a transaction that locks the row of the auction.
pub mod Data
pub mod Rows
pub mod Sound
pub mod Kept
pub mod Run
pub mod Room
pub mod Frozen
pub mod Started
mod Tests
use live_auction.Common.{
  ℕ, suc, ◌+◌, ◌*◌, Bool, true, false, ◌&&◌, ◌||◌, not, Option, none, some, List, [], ◌∷◌, ltb, leb,
  ◌==◌, is_none, if◌then◌else◌, map,
}
use live_auction.Common.Int.{ℤ, pos, pos_part, ltb_ℤ}
use live_auction.Rules.{RuleInput, RuleViolation, out_of, validate_rule}
use live_auction.Closing.Data.{job_pending, job_succeeded, JobRow}
use live_auction.Closing.{kept_status}
use live_auction.Lifecycle.Data.{
  Status, status_draft, status_scheduled, status_active, status_sold, status_ended,
  status_cancelled, Rule, RuleRow, CreateAuctionInput, UpdateRulesInput, LifeKind, auction_created,
  auction_unscheduled, narrate_started, narrate_stopped, auction_scheduled, rules_updated,
  auction_started, auction_cancelled, auction_end_shortened, auction_closed, LifeEvent, Lot,
  LifeError, auction_not_found, invalid_argument, rule_frozen_after_scheduled,
  conflict_room_has_active_auction, conflict_room_has_narration, invalid_narrate_target,
  database_error, rule_refused, LifeEnv,
}

abbrev pub rank : Status → ℕ
rank status_draft = 0
rank status_scheduled = 1
rank status_active = 2
rank status_sold = 3
rank status_ended = 4
rank status_cancelled = 5

abbrev pub same_status : Status → Status → Bool
same_status a b = rank a == rank b

abbrev pub is_terminal : Status → Bool
is_terminal s = leb 3 (rank s)

-- What a transaction writes to the row that it has locked.
pub data Written : Type 0 where
  refused : LifeError → Written
  written : Lot → Written

-- `GetAuction` joins the row with its current rule.
pub data Viewed : Type 0 where
  failed : LifeError → Viewed
  viewed : Lot → Rule → Option ℕ → Viewed

abbrev pub find_lot : ℕ → List Lot → Option Lot
find_lot id [] = none
find_lot id (l ∷ ls) = if l.id == id then some l else find_lot id ls

abbrev pub store : Lot → List Lot → List Lot
store l ls = map (λ x. if x.id == l.id then l else x) ls

abbrev pub rule_of : ℕ → List RuleRow → Option RuleRow
rule_of v [] = none
rule_of v (r ∷ rs) = if r.rule_version == v then some r else rule_of v rs

abbrev pub view : Lot → Viewed
view l = elim (rule_of l.rule_version l.rules) [
  | none ↦ failed auction_not_found
  | some r ↦ viewed l r.rule r.frozen_at
]

abbrev pub get_auction : ℕ → List Lot → Viewed
get_auction id ls = elim (find_lot id ls) [ none ↦ failed auction_not_found | some l ↦ view l ]

abbrev pub rule_input : ℤ → ℤ → Option ℤ → Rule → RuleInput
rule_input start increment cap r = record {
  start_price_cents = start;
  increment_cents = increment;
  cap_price_cents = cap;
  duration_seconds = r.duration_seconds;
  extend_window_seconds = r.extend_window_seconds;
  extend_by_seconds = r.extend_by_seconds;
  max_extend_count = r.max_extend_count;
  fat_finger_threshold_cents = r.fat_finger_threshold_cents;
}

-- The first violation is the error.
abbrev pub validate_rule_against_auction : RuleInput → Option LifeError
validate_rule_against_auction r = elim (validate_rule r) [
  | [] ↦ none
  | v ∷ vs ↦ some (rule_refused v)
]

-- A default for 0.
abbrev coalesce : ℤ → ℤ → ℤ
coalesce value fallback =
    if not (ltb_ℤ value (pos 0)) && not (ltb_ℤ (pos 0) value) then fallback else value

abbrev pub stored_rule : Rule → Rule
stored_rule r = record r {
  deposit_bps = coalesce r.deposit_bps (pos 1000);
  deposit_floor_cents = coalesce r.deposit_floor_cents (pos 10000);
  deposit_cap_cents = coalesce r.deposit_cap_cents (pos 100000000);
}

abbrev pub insert_rule : ℕ → Rule → List RuleRow → List RuleRow
insert_rule v r rs = record { rule_version = v; rule = stored_rule r; frozen_at = none } ∷ rs

abbrev pub append_life_event : LifeKind → ℕ → Lot → Lot
append_life_event kind now l = record l {
  version = suc l.version;
  seq = suc l.seq;
  events =
      record { seq = suc l.seq; state_version = suc l.version; kind = kind; server_time_ms = now }
      ∷ l.events;
}

abbrev pub upsert_scheduler_job : ℕ → Option JobRow → JobRow
upsert_scheduler_job at none = record { status = job_pending; run_at = at; next_attempt_at = at }
upsert_scheduler_job at (some j) = record {
  status = kept_status j.status;
  run_at = at;
  next_attempt_at = at;
}

-- The row that `CreateAuction` inserts.
abbrev pub new_lot : ℕ → CreateAuctionInput → Lot
new_lot id i = record {
  id = id;
  room_id = i.room_id;
  status = status_draft;
  is_narrating = false;
  narrating_started_at = none;
  current_price_cents = i.start_price_cents;
  start_price_cents = i.start_price_cents;
  increment_cents = i.increment_cents;
  cap_price_cents = i.cap_price_cents;
  start_at = none;
  end_at = none;
  version = 0;
  seq = 0;
  rule_version = 1;
  rules = insert_rule 1 i.rule [];
  events = [];
  end_job = none;
}

-- The INSERT, which a key of rooms, items or auctions may refuse.
abbrev pub inserted : LifeEnv → ℕ → CreateAuctionInput → List Lot → Bool → Viewed × List Lot
inserted e id i ls false = (failed database_error, ls)
inserted e id i ls true = (
  view (append_life_event auction_created e.now (new_lot id i)),
  append_life_event auction_created e.now (new_lot id i) ∷ ls,
)

abbrev pub created :
    LifeEnv → ℕ → CreateAuctionInput → List Lot → Option LifeError → Viewed × List Lot
created e id i ls (some err) = (failed err, ls)
created e id i ls none =
    inserted e id i ls (is_none (find_lot id ls) && e.has_room i.room_id && e.has_item i.item_id)

unfoldable pub create_auction : LifeEnv → ℕ → CreateAuctionInput → List Lot → Viewed × List Lot
create_auction e id i ls = created e id i ls (
    validate_rule_against_auction
      (rule_input i.start_price_cents i.increment_cents i.cap_price_cents i.rule))

abbrev pub set_rules : UpdateRulesInput → Lot → Lot
set_rules i l = record l {
  current_price_cents = i.start_price_cents;
  start_price_cents = i.start_price_cents;
  increment_cents = i.increment_cents;
  cap_price_cents = i.cap_price_cents;
  rule_version = suc l.rule_version;
  rules = insert_rule (suc l.rule_version) i.rule l.rules;
}

abbrev pub unless_refused : Option LifeError → Lot → Written
unless_refused none l = written l
unless_refused (some err) l = refused err

unfoldable pub update_rules : LifeEnv → UpdateRulesInput → Lot → Written
update_rules e i l =
    if not (same_status l.status status_draft)
    then refused rule_frozen_after_scheduled
    else unless_refused
        (validate_rule_against_auction
          (rule_input i.start_price_cents i.increment_cents i.cap_price_cents i.rule))
        (append_life_event (rules_updated (suc l.rule_version)) e.now (set_rules i l))

-- `transition`, with what it does besides.
abbrev transition : LifeEnv → Status → Status → LifeKind → (Lot → Lot) → Lot → Written
transition e from to kind extra l =
    if not (same_status l.status from)
    then refused (
        if same_status from status_draft && same_status to status_scheduled
        then rule_frozen_after_scheduled
        else invalid_argument)
    else written (append_life_event kind e.now (record (extra l) { status = to }))

-- The UPDATE of frozen_at on the current rule.
abbrev pub freeze : Option ℕ → ℕ → List RuleRow → List RuleRow
freeze at v [] = []
freeze at v (r ∷ rs) =
    (if r.rule_version == v then record r { frozen_at = at } else r) ∷ freeze at v rs

abbrev pub set_frozen : Option ℕ → Lot → Lot
set_frozen at l = record l { rules = freeze at l.rule_version l.rules }

unfoldable pub schedule : LifeEnv → Option ℕ → Lot → Written
schedule e start_at =
    transition e status_draft status_scheduled auction_scheduled
      (λ l. record (set_frozen (some e.now) l) { start_at = start_at })

unfoldable pub unschedule : LifeEnv → Lot → Written
unschedule e = transition e status_scheduled status_draft auction_unscheduled (set_frozen none)

-- Another row of the room with this property: what a partial unique index on room_id refuses.
abbrev pub has_other : (Lot → Bool) → Lot → List Lot → Bool
has_other p l [] = false
has_other p l (x ∷ xs) = (not (x.id == l.id) && (x.room_id == l.room_id) && p x) || has_other p l xs

abbrev pub is_live : Lot → Bool
is_live l = same_status l.status status_active

abbrev pub narrates : Lot → Bool
narrates l = l.is_narrating

abbrev pub set_active : ℕ → ℕ → Lot → Lot
set_active now end l = record l {
  status = status_active;
  start_at = some now;
  end_at = some end;
  end_job = some (upsert_scheduler_job end l.end_job);
}

abbrev start_until : LifeEnv → ℕ → Lot → Written
start_until e end l =
    written (append_life_event (auction_started e.now end) e.now (set_active e.now end l))

abbrev pub start_with : LifeEnv → List Lot → Lot → Option RuleRow → Written
start_with e ls l none = refused auction_not_found
start_with e ls l (some r) =
    if not (same_status l.status status_scheduled)
    then refused invalid_argument
    else if has_other is_live l ls
    then refused conflict_room_has_active_auction
    else start_until e (e.now + pos_part r.rule.duration_seconds * 1000) l

-- `Start` up to the automatic bid with which it ends; without an active max bid intent nothing follows.
unfoldable pub start : LifeEnv → List Lot → Lot → Written
start e ls l = start_with e ls l (rule_of l.rule_version l.rules)

abbrev pub set_closed : Status → Lot → Lot
set_closed s l = record l { status = s; is_narrating = false; narrating_started_at = none }

-- The reason is 0 where the host gives none.
unfoldable pub cancel : LifeEnv → ℕ → Lot → Written
cancel e reason l =
    if is_terminal l.status
    then refused invalid_argument
    else written (
        append_life_event (auction_cancelled l.status reason) e.now (set_closed status_cancelled l))

abbrev pub set_end : ℕ → Lot → Lot
set_end end l = record l { end_at = some end; end_job = some (upsert_scheduler_job end l.end_job) }

abbrev pub shorten_to : LifeEnv → ℤ → ℕ → Lot → Option ℕ → Written
shorten_to e secs end l none = refused database_error
shorten_to e secs end l (some old) =
    if not (ltb end old)
    then refused invalid_argument
    else written (append_life_event (auction_end_shortened old end secs) e.now (set_end end l))

-- The row of an active auction has an end, without which the scan fails.
unfoldable pub shorten_active_auction : LifeEnv → ℤ → Lot → Written
shorten_active_auction e secs l =
    if not (same_status l.status status_active)
    then refused invalid_argument
    else shorten_to e secs (e.now + pos_part secs * 1000) l l.end_at

-- The active auction of a room.
abbrev pub active_id : ℕ → List Lot → Option ℕ
active_id room [] = none
active_id room (x ∷ xs) = if (x.room_id == room) && is_live x then some x.id else active_id room xs

abbrev is_other : Option ℕ → ℕ → Bool
is_other none id = false
is_other (some a) id = not (a == id)

abbrev pub set_narrating : ℕ → Lot → Lot
set_narrating now l = record l { is_narrating = true; narrating_started_at = some now }

unfoldable pub narrate_start : LifeEnv → List Lot → Lot → Written
narrate_start e ls l =
    if is_terminal l.status
    then refused invalid_narrate_target
    else if is_other (active_id l.room_id ls) l.id
    then refused invalid_narrate_target
    else if has_other narrates l ls
    then refused conflict_room_has_narration
    else written (append_life_event narrate_started e.now (set_narrating e.now l))

abbrev pub set_silent : Lot → Lot
set_silent l = record l { is_narrating = false; narrating_started_at = none }

unfoldable pub narrate_stop : LifeEnv → Lot → Written
narrate_stop e l = written (append_life_event narrate_stopped e.now (set_silent l))

abbrev pub mark_job : Option JobRow → Option JobRow
mark_job none = none
mark_job (some j) = some (record j { status = job_succeeded })

-- `processEndAuction` at the end of the auction and behind its fence, with or without a winner, as one step with
-- the claim of its job, whose states RUNNING, FAILED and DEAD are left out. The job of an auction that is not
-- active is done.
unfoldable pub end_lot : LifeEnv → Bool → Lot → Written
end_lot e won l =
    let s = if won then status_sold else status_ended in
    if not (same_status l.status status_active)
    then written (record l { end_job = mark_job l.end_job })
    else written (
        append_life_event (auction_closed s) e.now
          (record (set_closed s l) { end_job = mark_job l.end_job }))

-- BEGIN, SELECT FOR UPDATE, and COMMIT or ROLLBACK.
abbrev pub finish_tx : List Lot → Written → Viewed × List Lot
finish_tx ls (refused err) = (failed err, ls)
finish_tx ls (written l) = (get_auction l.id (store l ls), store l ls)

abbrev pub in_tx : (Lot → Written) → List Lot → Option Lot → Viewed × List Lot
in_tx f ls none = (failed auction_not_found, ls)
in_tx f ls (some l) = finish_tx ls (f l)

abbrev pub transact : ℕ → (Lot → Written) → List Lot → Viewed × List Lot
transact id f ls = in_tx f ls (find_lot id ls)

pub data LifeOp : Type 0 where
  create_op : ℕ → CreateAuctionInput → LifeOp
  rules_op : ℕ → UpdateRulesInput → LifeOp
  schedule_op : ℕ → Option ℕ → LifeOp
  unschedule_op start_op narrate_op silence_op : ℕ → LifeOp
  cancel_op : ℕ → ℕ → LifeOp
  shorten_op : ℕ → ℤ → LifeOp
  end_op : ℕ → Bool → LifeOp

unfoldable pub step_life : LifeEnv → LifeOp → List Lot → Viewed × List Lot
unfolding create_auction update_rules schedule unschedule start cancel shorten_active_auction
    narrate_start narrate_stop end_lot
step_life e (create_op id i) ls = create_auction e id i ls
step_life e (rules_op id i) ls = transact id (update_rules e i) ls
step_life e (schedule_op id at) ls = transact id (schedule e at) ls
step_life e (unschedule_op id) ls = transact id (unschedule e) ls
step_life e (start_op id) ls = transact id (start e ls) ls
step_life e (narrate_op id) ls = transact id (narrate_start e ls) ls
step_life e (silence_op id) ls = transact id (narrate_stop e) ls
step_life e (cancel_op id reason) ls = transact id (cancel e reason) ls
step_life e (shorten_op id secs) ls =
    if out_of (pos 5) (pos 120) secs
    then (failed invalid_argument, ls)
    else transact id (shorten_active_auction e secs) ls
step_life e (end_op id won) ls = transact id (end_lot e won) ls

unfoldable pub run_life : List (LifeEnv × LifeOp) → List Lot → List Lot
unfolding step_life
run_life [] ls = ls
run_life ((e, o) ∷ os) ls = run_life os (step_life e o ls).1
