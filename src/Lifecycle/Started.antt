-- ===== src/Lifecycle/Started.antt =====
-- `Start` of auction/repository.go on a well-formed auction: its answers, and the end it sets.
use live_auction.Common.{
  ℕ, ◌+◌, ◌*◌, ◌≤◌, ◌≡◌, refl, ap, subst, ◌⊎◌, inl, inr, ◌≢◌, true, false, Option, none, some, List,
  [], ◌∷◌, ◌==◌, Bool-cases, arith,
}
use live_auction.Common.Int.{ℤ, pos_part}
use live_auction.Rules.{RuleInput, validate_rule}
use live_auction.Closing.Data.{job_pending}
use live_auction.Lifecycle.Data.{
  Status, status_scheduled, status_active, LifeEnv, invalid_argument,
  conflict_room_has_active_auction, Lot, RuleRow,
}
use live_auction.Lifecycle.{same_status, refused, written, rule_of, has_other, is_live, start}
use live_auction.Lifecycle.Sound.{IsRuled, HasEnd, IsSound, same_status→≡}

-- An active auction that ends between 30 seconds and a day from now, with a pending job for that time.
abbrev pub EndsIn : ℕ → Lot → Type 0
EndsIn now l =
    (secs : ℕ) × (30 ≤ secs)
    × (secs ≤ 86400)
    × (l.status ≡ status_active)
    × (l.start_at ≡ some now)
    × (l.end_at ≡ some (now + secs * 1000))
    × (l.end_job
        ≡ some (record {
          status = job_pending;
          run_at = now + secs * 1000;
          next_attempt_at = now + secs * 1000;
        }))

validated-duration :
    (r : RuleInput)
    → validate_rule r ≡ []
    → (30 ≤ pos_part r.duration_seconds) × (pos_part r.duration_seconds ≤ 86400)
unfolding validate_rule
validated-duration r h = (ground arith, ground arith)

current :
    (s : Status) (v : ℕ) (a b : ℤ) (c : Option ℤ) (rs : List RuleRow)
    → IsRuled s v a b c rs
    → (r : RuleRow) × (rule_of v rs ≡ some r)
      × (30 ≤ pos_part r.rule.duration_seconds)
      × (pos_part r.rule.duration_seconds ≤ 86400)
current s v a b c [] u = absurd u
current s v a b c (r ∷ rs) (e, ok, f, (w, u)) =
    let here : r.rule_version == v ≡ true = ground (arith, e, w) in
    let (short, long) = validated-duration _ ok in (r, rw here refl, short, long)

-- `Start` on a well-formed auction without an active max bid intent, for which it would also bid: it is refused
-- where the auction is not SCHEDULED, a conflict where another auction of the room is active, and otherwise the
-- auction is active with an end between 30 seconds and a day from now and a pending END_AUCTION job for it.
pub start-EndsIn :
    (e : LifeEnv) (ls : List Lot) (l : Lot)
    → IsSound l
    → ((l.status ≢ status_scheduled) × (start e ls l ≡ refused invalid_argument))
      ⊎ ((l.status ≡ status_scheduled)
          × (has_other is_live l ls ≡ true)
          × (start e ls l ≡ refused conflict_room_has_active_auction))
      ⊎ ((l.status ≡ status_scheduled)
          × (has_other is_live l ls ≡ false)
          × (l' : Lot) × (start e ls l ≡ written l')
          × EndsIn e.now l')
unfolding start
start-EndsIn e ls l v =
    let (r, found, short, long) = current l.status _ _ _ _ l.rules v.ruled in
    rw found (elim (Bool-cases (same_status l.status status_scheduled)) [
      | inr n ↦ rw n (inl (λ d. cc (n, ap (λ s. same_status s status_scheduled) d), refl))
      | inl y ↦ elim (Bool-cases (has_other is_live l ls)) [
        | inl taken ↦ rw (y, taken) (inr (inl (same_status→≡ _ _ y, refl, refl)))
        | inr free ↦
            let scheduled : l.status ≡ status_scheduled = same_status→≡ _ _ y in
            let job : l.end_job ≡ none =
              subst (λ s. HasEnd s l.end_at l.end_job) scheduled v.timed in
            rw (y, free)
              (inr (
                inr (
                  same_status→≡ _ _ y,
                  refl,
                  _,
                  refl,
                  (pos_part r.rule.duration_seconds, short, long, refl, refl, refl, rw job refl),
                )))
      ]
    ])
