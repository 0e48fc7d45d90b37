-- ===== src/Lifecycle/Kept.antt =====
-- Every operation of auction/repository.go keeps an auction well formed.
use live_auction.Common.{
  inr, inl, Bool-cases, ℕ, suc, ◌+◌, ◌*◌, ◌≡◌, refl, subst, Bool, true, false, not, Option, none,
  some, List, [], ◌∷◌, if◌then◌else◌, ap, ltb, arith,
}
use live_auction.Common.Int.{ℤ, pos_part}
use live_auction.Rules.{RuleInput, RuleViolation, validate_rule}
use live_auction.Closing.Data.{JobRow}
use live_auction.Lifecycle.Data.{
  Status, status_draft, status_scheduled, status_active, status_sold, status_ended,
  status_cancelled, RuleRow, CreateAuctionInput, UpdateRulesInput, auction_created,
  auction_unscheduled, narrate_started, narrate_stopped, auction_scheduled, rules_updated,
  auction_started, auction_cancelled, auction_end_shortened, auction_closed, Lot, LifeEnv,
  LifeError,
}
use live_auction.Lifecycle.{
  Written, refused, same_status, is_terminal, unless_refused, start_with, shorten_to, set_end,
  rule_of, is_other, rule_input, validate_rule_against_auction, new_lot, append_life_event,
  set_rules, update_rules, schedule, unschedule, has_other, is_live, narrates, start, cancel,
  shorten_active_auction, narrate_start, narrate_stop, end_lot, active_id, set_closed, mark_job,
}
use live_auction.Lifecycle.Rows.{Ensures}
use live_auction.Lifecycle.Sound.{
  IsRuled, HasEnd, IsSound, append_life_event-IsSound, same_status→≡, freeze-IsRuled,
  IsRuled-weaken, IsRuled-IsVersioned,
}

-- The rule that the check lets through has no violation.
validated : (r : RuleInput) → validate_rule_against_auction r ≡ none → validate_rule r ≡ []
validated r h = go (validate_rule r) refl
  where
    go : (vs : List RuleViolation) → validate_rule r ≡ vs → validate_rule r ≡ []
    go [] e = e
    go (v ∷ vs) e = absurd (cc (rw (e, validate_rule_against_auction) at h))

-- What a status says of the rules and of the end, where it is known.
abbrev Known : Lot → Status → Type 0
Known l s =
    IsRuled s l.rule_version l.start_price_cents l.increment_cents l.cap_price_cents l.rules
    × HasEnd s l.end_at l.end_job

IsSound-Known : (l : Lot) (s : Status) → IsSound l → l.status ≡ s → Known l s
IsSound-Known l s v e = subst (λ t. Known l t) e (v.ruled, v.timed)

-- What is written behind a guard, and behind a guard on the status.
unless :
    (b : Bool) (err : LifeError) (w : Written)
    → (b ≡ false → Ensures IsSound w)
    → Ensures IsSound (if b then refused err else w)
unless true err w h = tt
unless false err w h = h refl

guarded :
    (l : Lot) (s : Status) (err : LifeError) (w : Written)
    → (l.status ≡ s → Ensures IsSound w)
    → Ensures IsSound (if not (same_status l.status s) then refused err else w)
guarded l s err w h =
    unless (not (same_status l.status s)) err w
      (λ n. h (same_status→≡ l.status s (ground (arith, n))))

pub schedule-IsSound :
    (e : LifeEnv) (at : Option ℕ) (l : Lot) → IsSound l → Ensures IsSound (schedule e at l)
unfolding schedule
schedule-IsSound e at l v = guarded l status_draft _ _ (λ d.
    let (ruled, timed) = IsSound-Known l status_draft v d in
    append_life_event-IsSound auction_scheduled e.now l _ v (refl, refl, refl) (rw d refl)
      (freeze-IsRuled (some e.now) status_draft status_scheduled _ _ _ _ _ refl ruled) timed)

pub unschedule-IsSound : (e : LifeEnv) (l : Lot) → IsSound l → Ensures IsSound (unschedule e l)
unfolding unschedule
unschedule-IsSound e l v = guarded l status_scheduled _ _ (λ d.
    let (ruled, timed) = IsSound-Known l status_scheduled v d in
    append_life_event-IsSound auction_unscheduled e.now l _ v (refl, refl, refl) (rw d refl)
      (freeze-IsRuled none status_scheduled status_draft _ _ _ _ _ refl ruled) timed)

when_valid :
    (o : Option LifeError) {l : Lot} → (o ≡ none → IsSound l) → Ensures IsSound (unless_refused o l)
when_valid none h = h refl
when_valid (some err) h = tt

pub update_rules-IsSound :
    (e : LifeEnv) (i : UpdateRulesInput) (l : Lot)
    → IsSound l
    → Ensures IsSound (update_rules e i l)
unfolding update_rules
update_rules-IsSound e i l v = guarded l status_draft _ _ (λ d.
    let (ruled, timed) = IsSound-Known l status_draft v d in
    let (count, old) = IsRuled-IsVersioned status_draft _ _ _ _ l.rules ruled in
    when_valid _ (λ ok.
      append_life_event-IsSound (rules_updated (suc l.rule_version)) e.now l (set_rules i l) v
        (refl, refl, refl) (rw d refl)
        (rw d (ap suc count, validated _ ok, refl, (ap suc count, old))) (rw d timed)))

pub start-IsSound :
    (e : LifeEnv) (ls : List Lot) (l : Lot) → IsSound l → Ensures IsSound (start e ls l)
unfolding start
start-IsSound e ls l v = with_rule (rule_of l.rule_version l.rules)
  where
    with_rule : (o : Option RuleRow) → Ensures IsSound (start_with e ls l o)
    with_rule none = tt
    with_rule (some r) = guarded l status_scheduled _ _ (λ d.
        let (ruled, timed) = IsSound-Known l status_scheduled v d in
        unless (has_other is_live l ls) _ _ (λ free.
          append_life_event-IsSound (auction_started _ _) e.now l _ v (refl, refl, refl) (rw d refl)
            (IsRuled-weaken status_scheduled status_active _ _ _ _ _ (λ at f. f) ruled)
            (rw timed (refl, refl, refl))))

pub cancel-IsSound :
    (e : LifeEnv) (reason : ℕ) (l : Lot) → IsSound l → Ensures IsSound (cancel e reason l)
unfolding cancel
cancel-IsSound e reason l v = unless (is_terminal l.status) _ _ (λ n.
    append_life_event-IsSound (auction_cancelled l.status reason) e.now l
      (set_closed status_cancelled l) v (refl, refl, refl) (ground (arith, n))
      (IsRuled-weaken l.status status_cancelled _ _ _ _ _ (λ at f. tt) v.ruled) tt)

-- The job of an auction that is not active.
marked-HasEnd :
    (s : Status) (end : Option ℕ) (job : Option JobRow)
    → same_status s status_active ≡ false
    → HasEnd s end job
    → HasEnd s end (mark_job job)
marked-HasEnd status_draft end job n v = rw v refl
marked-HasEnd status_scheduled end job n v = rw v refl
marked-HasEnd status_active end job n v = absurd (cc)
marked-HasEnd status_sold end job n v = tt
marked-HasEnd status_ended end job n v = tt
marked-HasEnd status_cancelled end job n v = tt

marked-IsSound :
    (l : Lot)
    → same_status l.status status_active ≡ false
    → IsSound l
    → IsSound (record l { end_job = mark_job l.end_job })
marked-IsSound l n v = record {
  replayed = v.replayed;
  numbered = v.numbered;
  seq = v.seq;
  version = v.version;
  ruled = v.ruled;
  timed = marked-HasEnd l.status l.end_at l.end_job n v.timed;
}

-- An active auction is sold or ends without a winner.
closed-IsSound :
    (e : LifeEnv) (won : Bool) (l : Lot)
    → IsSound l
    → l.status ≡ status_active
    → IsSound (
        append_life_event
          (auction_closed (if won then status_sold else status_ended))
          e.now
          (record (set_closed (if won then status_sold else status_ended) l) {
            end_job = mark_job l.end_job;
          }))
closed-IsSound e true l v d =
    append_life_event-IsSound (auction_closed status_sold) e.now l _ v (refl, refl, refl)
      (rw d refl)
      (IsRuled-weaken status_active status_sold _ _ _ _ _ (λ at f. f)
        (IsSound-Known l status_active v d).0)
      tt
closed-IsSound e false l v d =
    append_life_event-IsSound (auction_closed status_ended) e.now l _ v (refl, refl, refl)
      (rw d refl)
      (IsRuled-weaken status_active status_ended _ _ _ _ _ (λ at f. f)
        (IsSound-Known l status_active v d).0)
      tt

pub end_lot-IsSound :
    (e : LifeEnv) (won : Bool) (l : Lot) → IsSound l → Ensures IsSound (end_lot e won l)
unfolding end_lot
end_lot-IsSound e won l v = elim (Bool-cases (same_status l.status status_active)) [
  | inl y ↦ rw y (closed-IsSound e won l v (same_status→≡ l.status status_active y))
  | inr n ↦ rw n (marked-IsSound l n v)
]

pub narrate_stop-IsSound : (e : LifeEnv) (l : Lot) → IsSound l → Ensures IsSound (narrate_stop e l)
unfolding narrate_stop
narrate_stop-IsSound e l v =
    append_life_event-IsSound narrate_stopped e.now l _ v (refl, refl, refl) refl v.ruled v.timed

pub narrate_start-IsSound :
    (e : LifeEnv) (ls : List Lot) (l : Lot) → IsSound l → Ensures IsSound (narrate_start e ls l)
unfolding narrate_start
narrate_start-IsSound e ls l v = unless (is_terminal l.status) _ _ (λ n.
    unless (is_other (active_id l.room_id ls) l.id) _ _ (λ target.
      unless (has_other narrates l ls) _ _ (λ free.
        append_life_event-IsSound narrate_started e.now l _ v (refl, refl, refl) (rw n refl) v.ruled
          v.timed)))

pub shorten_active_auction-IsSound :
    (e : LifeEnv) (secs : ℤ) (l : Lot)
    → IsSound l
    → Ensures IsSound (shorten_active_auction e secs l)
unfolding shorten_active_auction
shorten_active_auction-IsSound e secs l v =
    guarded l status_active _ _
      (λ d. within d (l.end_at) (l.end_job) (IsSound-Known l status_active v d).1 refl)
  where
    within :
        l.status ≡ status_active
        → (o : Option ℕ) (j : Option JobRow) → HasEnd status_active o j
        → l.end_job ≡ j
        → Ensures IsSound (shorten_to e secs (e.now + pos_part secs * 1000) l o)
    within d none j t f = absurd t
    within d (some old) none t f = absurd t
    within d (some old) (some j) (p, t, t2) f =
        unless (not (ltb (e.now + pos_part secs * 1000) old)) _ _ (λ sooner.
          append_life_event-IsSound (auction_end_shortened old (e.now + pos_part secs * 1000) secs)
            e.now l (set_end (e.now + pos_part secs * 1000) l) v (refl, refl, refl) (rw d refl)
            v.ruled (rw (d, f) (rw p refl, refl, refl)))

pub new_lot-IsSound :
    (e : LifeEnv) (id : ℕ) (i : CreateAuctionInput)
    → validate_rule_against_auction
        (rule_input i.start_price_cents i.increment_cents i.cap_price_cents i.rule)
      ≡ none
    → IsSound (append_life_event auction_created e.now (new_lot id i))
new_lot-IsSound e id i h = record {
  replayed = refl;
  numbered = (refl, refl, tt);
  seq = refl;
  version = refl;
  ruled = (refl, validated _ h, refl, (refl, tt));
  timed = refl;
}
