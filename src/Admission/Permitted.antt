-- ===== src/Admission/Permitted.antt =====
-- What `admit` of backend/internal/gateway/bid_admission.go does to one key of the limits.
use live_auction.Common.{
  ℕ, ◌+◌, ◌≤◌, ◌<◌, ◌≡◌, refl, sym, subst, true, max, inl, inr, Bool-cases, arith,
}
use live_auction.Admission.Data.{LimitKey, reached, AdmissionConfig, BidRequest, AdmissionDb}
use live_auction.Admission.Limits.{
  window_ms, emission_ms, limit_of, checks, Limited, within_limits, limited, check_redis_limits,
}
use live_auction.Admission.{
  Found, not_found, found, found_error, completed_bid_replay, permitted, acquire_local_permit,
  release_permit, after_limits, after_replay, admit, lacks_bid, lacks_key, lacks_confirm,
  completed_confirm_replay, admit_confirm,
}
use live_auction.Admission.Script.{tat_of, Lasts}
use live_auction.Admission.Charged.{IsTimely, Moves, Charged}
use live_auction.Admission.Paid.{has_key, check_redis_limits-Charged, check_redis_limits-Moves}

replay_keys :
    (key : LimitKey) (r : BidRequest) (db : AdmissionDb)
    → (completed_bid_replay r db).1.keys key ≡ db.keys key
unfolding completed_bid_replay
replay_keys key r db = ground arith

permit_keys :
    (cfg : AdmissionConfig) (key : LimitKey) (r : BidRequest) (db : AdmissionDb)
    → (acquire_local_permit cfg r db).1.keys key ≡ db.keys key
unfolding acquire_local_permit
permit_keys cfg key r db = ground arith

pub release_keys :
    (cfg : AdmissionConfig) (key : LimitKey) (auction : ℕ) (db : AdmissionDb)
    → (release_permit cfg auction db).keys key ≡ db.keys key
unfolding release_permit
release_keys cfg key auction db = ground arith

Moves-from :
    (cfg : AdmissionConfig) (key : LimitKey) (a b c d : AdmissionDb)
    → b.keys key ≡ a.keys key
    → d.keys key ≡ c.keys key
    → Moves cfg key b c
    → Moves cfg key a d
Moves-from cfg key a b c d e f m = record {
  lasts = rw f m.lasts;
  grows = subst (λ k. tat_of k ≤ tat_of (d.keys key)) e (rw f m.grows);
}

after_limits_keys :
    (cfg : AdmissionConfig) (key : LimitKey) (r : BidRequest) (l : Limited) (db : AdmissionDb)
    → (after_limits cfg r (l, db)).1.keys key ≡ db.keys key
after_limits_keys cfg key r within_limits db = permit_keys cfg key r db
after_limits_keys cfg key r (limited e) db = refl

after_limits-permitted :
    (cfg : AdmissionConfig) (r : BidRequest) (l : Limited) (db : AdmissionDb)
    → (after_limits cfg r (l, db)).0 ≡ permitted
    → l ≡ within_limits
after_limits-permitted cfg r within_limits db ok = refl
after_limits-permitted cfg r (limited e) db ok = absurd (cc)

Charged-keys :
    (cfg : AdmissionConfig) (key : LimitKey) (r : BidRequest) (a b c d : AdmissionDb)
    → b.keys key ≡ a.keys key
    → d.keys key ≡ c.keys key
    → Charged cfg key r b c
    → Charged cfg key r a d
Charged-keys cfg key r a b c d e f h = record {
  level = h.level;
  paid =
      subst
        (λ k. max (tat_of k) r.now_ms + emission_ms (limit_of cfg key) (window_ms cfg) ≤ h.level) e
        h.paid;
  room = h.room;
  reached = rw f h.reached;
}

module _ (cfg : AdmissionConfig) (key : LimitKey) (r : BidRequest) (t : IsTimely cfg r) where
  after_replay-Moves :
      (f : Found) (db : AdmissionDb)
      → Lasts (window_ms cfg) (db.keys key)
      → Moves cfg key db (after_replay cfg r (f, db)).1
  after_replay-Moves not_found db v =
      let (l, db') = check_redis_limits cfg r db in
      Moves-from cfg key db db db' _ refl (after_limits_keys cfg key r l db')
        (check_redis_limits-Moves cfg key r t db v)
  after_replay-Moves (found x) db v = record { lasts = v; grows = omega arith }
  after_replay-Moves (found_error e) db v = record { lasts = v; grows = omega arith }

  pub admit-Moves :
      (db : AdmissionDb) → Lasts (window_ms cfg) (db.keys key) → Moves cfg key db (admit cfg r db).1
  unfolding admit
  admit-Moves db v = elim (Bool-cases (lacks_bid r)) [
    | inl bad ↦ rw (bad, admit) (record { lasts = v; grows = omega arith })
    | inr good ↦
        rw (good, admit)
          (elim (Bool-cases (lacks_key r)) [
            | inl bad ↦ rw bad (record { lasts = v; grows = omega arith })
            | inr keyed ↦
                let (f, db') = completed_bid_replay r db in
                let same = replay_keys key r db in
                rw keyed (
                  Moves-from cfg key db db' _ _ same refl
                    (after_replay-Moves f db' (subst (λ k. Lasts (window_ms cfg) k) (sym same) v)))
          ])
  ]

  pub admit_confirm-Moves :
      (db : AdmissionDb)
      → Lasts (window_ms cfg) (db.keys key)
      → Moves cfg key db (admit_confirm cfg r db).1
  unfolding admit_confirm
  admit_confirm-Moves db v = elim (Bool-cases (lacks_confirm r)) [
    | inl bad ↦ rw (bad, admit_confirm) (record { lasts = v; grows = omega arith })
    | inr good ↦ rw (good, admit_confirm) (after_replay-Moves (completed_confirm_replay r db) db v)
  ]

  module _ (up : (k : LimitKey) → r.reach k ≡ reached) (pos : 0 < limit_of cfg key)
      (on : cfg.admission_enabled ≡ true) (redis : cfg.has_redis ≡ true)
      (among : has_key key (checks r) ≡ true) where
    after_replay-Charged :
        (f : Found) (db : AdmissionDb)
        → Lasts (window_ms cfg) (db.keys key)
        → (after_replay cfg r (f, db)).0 ≡ permitted
        → Charged cfg key r db (after_replay cfg r (f, db)).1
    after_replay-Charged (found x) db v ok = absurd (cc)
    after_replay-Charged (found_error e) db v ok = absurd (cc)
    after_replay-Charged not_found db v ok =
        let (l, db') = check_redis_limits cfg r db in
        Charged-keys cfg key r db db db' (after_limits cfg r (l, db')).1 refl
          (after_limits_keys cfg key r l db')
          (check_redis_limits-Charged cfg key r t up pos db on redis among v
            (after_limits-permitted cfg r l db' ok))

    pub admit-Charged :
        (db : AdmissionDb)
        → Lasts (window_ms cfg) (db.keys key)
        → (admit cfg r db).0 ≡ permitted
        → Charged cfg key r db (admit cfg r db).1
    unfolding admit
    admit-Charged db v ok = elim (Bool-cases (lacks_bid r)) [
      | inl bad ↦ absurd (cc (rw (bad, admit) at ok))
      | inr good ↦ elim (Bool-cases (lacks_key r)) [
        | inl bad ↦ absurd (cc (rw (good, bad, admit) at ok))
        | inr keyed ↦
            let (f, db') = completed_bid_replay r db in
            let same = replay_keys key r db in
            rw (good, keyed, admit)
              (Charged-keys cfg key r db db' (after_replay cfg r (f, db')).1
                (after_replay cfg r (f, db')).1 same refl
                (after_replay-Charged f db' (subst (λ k. Lasts (window_ms cfg) k) (sym same) v)
                  (rw (good, keyed, admit) at ok)))
      ]
    ]

    pub admit_confirm-Charged :
        (db : AdmissionDb)
        → Lasts (window_ms cfg) (db.keys key)
        → (admit_confirm cfg r db).0 ≡ permitted
        → Charged cfg key r db (admit_confirm cfg r db).1
    unfolding admit_confirm
    admit_confirm-Charged db v ok = elim (Bool-cases (lacks_confirm r)) [
      | inl bad ↦ absurd (cc (rw (bad, admit_confirm) at ok))
      | inr good ↦
          rw (good, admit_confirm)
            (after_replay-Charged (completed_confirm_replay r db) db v
              (rw (good, admit_confirm) at ok))
    ]
