-- ===== src/Lifecycle/Sound.antt =====
-- What the operations of auction/repository.go keep of the row of an auction, its rules, its events and its job.
use live_auction.Common.{
  ℕ, zero, suc, ◌≡◌, refl, sym, true, ◌&&◌, not, Option, none, some, List, [], ◌∷◌, is_some,
  if◌then◌else◌, length, ◌==◌, ◌∙◌, ap, arith,
}
use live_auction.Common.Int.{ℤ}
use live_auction.Rules.{validate_rule}
use live_auction.Closing.Data.{job_pending, JobRow}
use live_auction.Lifecycle.Data.{
  Status, status_draft, status_scheduled, status_active, status_sold, status_ended,
  status_cancelled, RuleRow, LifeKind, auction_created, auction_unscheduled, narrate_started,
  narrate_stopped, auction_scheduled, rules_updated, auction_started, auction_cancelled,
  auction_end_shortened, auction_closed, LifeEvent, Lot,
}
use live_auction.Lifecycle.{rank, same_status, is_terminal, rule_input, freeze, append_life_event}

-- The status after an event that is legal at its place.
abbrev pub after : LifeKind → Option Status → Option Status
after auction_created none = some status_draft
after (rules_updated v) (some status_draft) = some status_draft
after auction_scheduled (some status_draft) = some status_scheduled
after auction_unscheduled (some status_scheduled) = some status_draft
after (auction_started at end) (some status_scheduled) = some status_active
after (auction_end_shortened old new secs) (some status_active) = some status_active
after (auction_closed status_sold) (some status_active) = some status_sold
after (auction_closed status_ended) (some status_active) = some status_ended
after (auction_cancelled previous reason) (some s) =
    if same_status previous s && not (is_terminal s) then some status_cancelled else none
after narrate_started (some s) = if is_terminal s then none else some s
after narrate_stopped (some s) = some s
after _ _ = none

-- The status that the events of an auction lead to; `none` if one of them is not legal.
abbrev pub replay : List LifeEvent → Option Status
replay [] = none
replay (e ∷ es) = after e.kind (replay es)

-- The events are numbered 1, 2, …, and so are the versions they carry.
abbrev pub IsNumbered : List LifeEvent → Type 0
IsNumbered [] = Unit
IsNumbered (e ∷ es) =
    (e.seq ≡ suc (length es)) × (e.state_version ≡ suc (length es)) × IsNumbered es

abbrev pub IsVersioned : List RuleRow → Type 0
IsVersioned [] = Unit
IsVersioned (r ∷ rs) = (r.rule_version ≡ suc (length rs)) × IsVersioned rs

-- A rule is frozen exactly from SCHEDULED on; a cancelled auction may be either.
abbrev pub FrozenIn : Status → Option ℕ → Type 0
FrozenIn status_draft at = at ≡ none
FrozenIn status_cancelled at = Unit
FrozenIn _ at = is_some at ≡ true

-- The rules are numbered, and the newest is the current one: valid with the prices, and frozen as the status says.
abbrev pub IsRuled : Status → ℕ → ℤ → ℤ → Option ℤ → List RuleRow → Type 0
IsRuled s v start increment cap [] = ⊥
IsRuled s v start increment cap (r ∷ rs) =
    (v ≡ suc (length rs))
    × (validate_rule (rule_input start increment cap r.rule) ≡ [])
    × FrozenIn s r.frozen_at
    × IsVersioned (r ∷ rs)

-- An active auction has an end and a pending END_AUCTION job for it; before that there is no job.
abbrev pub HasEnd : Status → Option ℕ → Option JobRow → Type 0
HasEnd status_draft end job = job ≡ none
HasEnd status_scheduled end job = job ≡ none
HasEnd status_active (some end) (some job) =
    (job.status ≡ job_pending) × (job.run_at ≡ end) × (job.next_attempt_at ≡ end)
HasEnd status_active _ _ = ⊥
HasEnd _ end job = Unit

pub record IsSound (l : Lot) : Type 0 where
  pub replayed : replay l.events ≡ some l.status
  pub numbered : IsNumbered l.events
  pub seq : l.seq ≡ length l.events
  pub version : l.version ≡ length l.events
  pub ruled :
      IsRuled l.status l.rule_version l.start_price_cents l.increment_cents l.cap_price_cents
        l.rules
  pub timed : HasEnd l.status l.end_at l.end_job

-- A legal event keeps what is known of the events.
pub append_life_event-IsSound :
    (k : LifeKind) (now : ℕ) (l l' : Lot)
    → IsSound l
    → (l'.events ≡ l.events) × (l'.seq ≡ l.seq) × (l'.version ≡ l.version)
    → after k (some l.status) ≡ some l'.status
    → IsRuled l'.status l'.rule_version l'.start_price_cents l'.increment_cents l'.cap_price_cents
        l'.rules
    → HasEnd l'.status l'.end_at l'.end_job
    → IsSound (append_life_event k now l')
append_life_event-IsSound k now l l' s (e, q, v) legal ruled timed = record {
  replayed = rw (e, s.replayed) legal;
  numbered = rw e (ap suc (q ∙ s.seq), ap suc (v ∙ s.version), s.numbered);
  seq = rw e (ap suc (q ∙ s.seq));
  version = rw e (ap suc (v ∙ s.version));
  ruled = ruled;
  timed = timed;
}

pub same_status→≡ : (a b : Status) → same_status a b ≡ true → a ≡ b
same_status→≡ a b h = sym (of_rank-rank a) ∙ ap of_rank (ground arith) ∙ of_rank-rank b
  where
    of_rank : ℕ → Status
    of_rank zero = status_draft
    of_rank (suc zero) = status_scheduled
    of_rank (suc (suc zero)) = status_active
    of_rank (suc (suc (suc zero))) = status_sold
    of_rank (suc (suc (suc (suc zero)))) = status_ended
    of_rank _ = status_cancelled

    of_rank-rank : (s : Status) → of_rank (rank s) ≡ s
    of_rank-rank status_draft = refl
    of_rank-rank status_scheduled = refl
    of_rank-rank status_active = refl
    of_rank-rank status_sold = refl
    of_rank-rank status_ended = refl
    of_rank-rank status_cancelled = refl

length-freeze : (at : Option ℕ) (v : ℕ) (rs : List RuleRow) → length (freeze at v rs) ≡ length rs
length-freeze at v [] = refl
length-freeze at v (r ∷ rs) = ap suc (length-freeze at v rs)

freeze-IsVersioned :
    (at : Option ℕ) (v : ℕ) (rs : List RuleRow) → IsVersioned rs → IsVersioned (freeze at v rs)
freeze-IsVersioned at v [] u = tt
freeze-IsVersioned at v (r ∷ rs) (e, u) =
    rw (length-freeze at v rs) (ground (arith, e), freeze-IsVersioned at v rs u)

-- Another status, and the current rule frozen as it asks.
pub freeze-IsRuled :
    (at : Option ℕ) (s s' : Status) (v : ℕ) (a b : ℤ) (c : Option ℤ) (rs : List RuleRow)
    → FrozenIn s' at
    → IsRuled s v a b c rs
    → IsRuled s' v a b c (freeze at v rs)
freeze-IsRuled at s s' v a b c [] f u = u
freeze-IsRuled at s s' v a b c (r ∷ rs) f (e, ok, g, (w, u)) =
    let current : r.rule_version == v ≡ true = ground (arith, e, w) in
    rw current (rw (length-freeze at v rs) (e, ok, f, (w, freeze-IsVersioned at v rs u)))

-- A status that asks for less.
pub IsRuled-weaken :
    (s s' : Status) (v : ℕ) (a b : ℤ) (c : Option ℤ) (rs : List RuleRow)
    → ((at : Option ℕ) → FrozenIn s at → FrozenIn s' at)
    → IsRuled s v a b c rs
    → IsRuled s' v a b c rs
IsRuled-weaken s s' v a b c [] f u = u
IsRuled-weaken s s' v a b c (r ∷ rs) f (e, ok, g, u) = (e, ok, f r.frozen_at g, u)

pub IsRuled-IsVersioned :
    (s : Status) (v : ℕ) (a b : ℤ) (c : Option ℤ) (rs : List RuleRow)
    → IsRuled s v a b c rs
    → (v ≡ length rs) × IsVersioned rs
IsRuled-IsVersioned s v a b c [] u = absurd u
IsRuled-IsVersioned s v a b c (r ∷ rs) (e, ok, g, u) = (e, u)
