-- ===== src/Admission/Charged.antt =====
-- What a request does to one key of the limits, backend/internal/gateway/bid_admission.go: it never lowers
-- its value, and a bid that passes the check of the key pays for it.
use live_auction.Common.{
  ℕ, ◌+◌, ◌≤◌, ◌<◌, ◌≡◌, sym, subst, true, Option, List, [], ◌∷◌, ltb, ◌==◌, inl, inr, Bool-cases,
  arith,
}
use live_auction.Admission.Data.{
  LimitKey, bid_limit_user_key, bid_limit_ip_key, bid_limit_auction_key, Tat, Reach, reached,
  unanswered, unreached, AdmissionConfig, BidRequest, AdmissionDb,
}
use live_auction.Admission.Limits.{
  is_same_key, emission_ms, eval_gcra_limit, window_ms, limit_of, Check, passed, opened, refused,
  check_reach, check_one, next_check, Limited, check_each,
}
use live_auction.Admission.Script.{
  tat_of, Lasts, Charge, after, bid_admission_gcra-grows, bid_admission_gcra-Lasts,
  bid_admission_gcra-Charge,
}

-- The scripts of a request run within a window after its time at the gateway.
pub record IsTimely (cfg : AdmissionConfig) (r : BidRequest) : Type 0 where
  pub early : r.now_ms ≤ r.redis_ms
  pub late : r.redis_ms ≤ r.now_ms + window_ms cfg

same_key_refl : (k : LimitKey) → is_same_key k k ≡ true
same_key_refl (bid_limit_user_key a u) = ground arith
same_key_refl (bid_limit_ip_key a p) = ground arith
same_key_refl (bid_limit_auction_key a) = ground arith

pub same_key→≡ : (j k : LimitKey) → is_same_key j k ≡ true → j ≡ k
same_key→≡ (bid_limit_user_key a u) (bid_limit_user_key b v) h = ground arith
same_key→≡ (bid_limit_user_key a u) (bid_limit_ip_key b v) h = absurd (cc)
same_key→≡ (bid_limit_user_key a u) (bid_limit_auction_key b) h = absurd (cc)
same_key→≡ (bid_limit_ip_key a u) (bid_limit_user_key b v) h = absurd (cc)
same_key→≡ (bid_limit_ip_key a u) (bid_limit_ip_key b v) h = ground arith
same_key→≡ (bid_limit_ip_key a u) (bid_limit_auction_key b) h = absurd (cc)
same_key→≡ (bid_limit_auction_key a) (bid_limit_user_key b v) h = absurd (cc)
same_key→≡ (bid_limit_auction_key a) (bid_limit_ip_key b v) h = absurd (cc)
same_key→≡ (bid_limit_auction_key a) (bid_limit_auction_key b) h = ground arith

module _ (cfg : AdmissionConfig) (key : LimitKey) where
  -- The key after a step, against the key before.
  pub record Moves (db db' : AdmissionDb) : Type 0 where
    pub lasts : Lasts (window_ms cfg) (db'.keys key)
    pub grows : tat_of (db.keys key) ≤ tat_of (db'.keys key)

  abbrev pub Charged : BidRequest → AdmissionDb → AdmissionDb → Type 0
  Charged r db db' =
      Charge r.now_ms (emission_ms (limit_of cfg key) (window_ms cfg)) (limit_of cfg key)
        (tat_of (db.keys key)) (tat_of (db'.keys key))

  module _ (r : BidRequest) (t : IsTimely cfg r) (k : LimitKey) where
    abbrev scripted : Option Tat → ℕ × Option Tat
    scripted =
        after (window_ms cfg) r.now_ms r.redis_ms (emission_ms (limit_of cfg k) (window_ms cfg))
          (limit_of cfg k)

    abbrev ran : AdmissionDb → AdmissionDb
    ran db = (eval_gcra_limit k (limit_of cfg k) (window_ms cfg) r db).1

    ran-Moves :
        (db : AdmissionDb)
        → 0 < limit_of cfg k
        → Lasts (window_ms cfg) (db.keys key)
        → Moves db (ran db)
    unfolding eval_gcra_limit
    ran-Moves db pos v = elim (Bool-cases (is_same_key key k)) [
      | inl hit ↦
          let same = same_key→≡ key k hit in
          let v' = subst (λ j. Lasts (window_ms cfg) (db.keys j)) same v in
          record {
            lasts = rw hit (
                bid_admission_gcra-Lasts (window_ms cfg) r.now_ms r.redis_ms _ (limit_of cfg k)
                  (db.keys k) pos t.early t.late v');
            grows = rw hit (
                subst (λ j. tat_of (db.keys j) ≤ tat_of (scripted (db.keys k)).1) (sym same)
                  (bid_admission_gcra-grows (window_ms cfg) r.now_ms r.redis_ms _ (limit_of cfg k)
                    (db.keys k) t.late v'));
          }
      | inr miss ↦ record { lasts = rw miss v; grows = rw miss (omega arith) }
    ]

    check_reach-Moves :
        (reach : Reach) (db : AdmissionDb)
        → 0 < limit_of cfg k
        → Lasts (window_ms cfg) (db.keys key)
        → Moves db (check_reach cfg k r reach db).1
    check_reach-Moves reached db pos v =
        let m = ran-Moves db pos v in
        let (retry, db') = eval_gcra_limit k (limit_of cfg k) (window_ms cfg) r db in
        elim (Bool-cases (ltb 0 retry)) [
          | inl over ↦ rw over (record { lasts = m.lasts; grows = m.grows })
          | inr pass ↦ rw pass m
        ]
    check_reach-Moves unanswered db pos v =
        let m = ran-Moves db pos v in record { lasts = m.lasts; grows = m.grows }
    check_reach-Moves unreached db pos v = record { lasts = v; grows = omega arith }

    pub check_one-Moves :
        (db : AdmissionDb) → Lasts (window_ms cfg) (db.keys key) → Moves db (check_one cfg k r db).1
    unfolding check_one
    check_one-Moves db v = elim (Bool-cases (limit_of cfg k == 0)) [
      | inl off ↦ rw off (record { lasts = v; grows = omega arith })
      | inr on ↦ rw on (check_reach-Moves (r.reach k) db (ground (arith, on)) v)
    ]

  module _ (r : BidRequest) (t : IsTimely cfg r) where
    pub Moves-trans : (a b c : AdmissionDb) → Moves a b → Moves b c → Moves a c
    Moves-trans a b c m n = record { lasts = n.lasts; grows = omega (arith, m.grows, n.grows) }

    next_check-Moves :
        (c : Check) (db db' : AdmissionDb) (rest : Limited × AdmissionDb)
        → Moves db db'
        → (Lasts (window_ms cfg) (db'.keys key) → Moves db' rest.1)
        → Moves db (next_check c db' rest).1
    next_check-Moves passed db db' rest m n = Moves-trans db db' rest.1 m (n m.lasts)
    next_check-Moves opened db db' rest m n = m
    next_check-Moves (refused e) db db' rest m n = m

    pub check_each-Moves :
        (ks : List LimitKey) (db : AdmissionDb)
        → Lasts (window_ms cfg) (db.keys key)
        → Moves db (check_each cfg ks r db).1
    unfolding check_each
    check_each-Moves [] db v = record { lasts = v; grows = omega arith }
    check_each-Moves (k ∷ ks) db v =
        next_check-Moves (check_one cfg k r db).0 db (check_one cfg k r db).1 _
          (check_one-Moves r t k db v) (λ w. check_each-Moves ks (check_one cfg k r db).1 w)

    -- The check of the key itself.
    checked-Charged :
        (db : AdmissionDb)
        → 0 < limit_of cfg key
        → Lasts (window_ms cfg) (db.keys key)
        → (check_reach cfg key r reached db).0 ≡ passed
        → Charged r db (check_reach cfg key r reached db).1
    unfolding eval_gcra_limit
    checked-Charged db pos v ok =
        let retry = (scripted r t key (db.keys key)).0 in
        elim (Bool-cases (ltb 0 retry)) [
          | inl over ↦ absurd (cc (rw over at ok))
          | inr pass ↦
              rw (pass, same_key_refl key)
                (bid_admission_gcra-Charge (window_ms cfg) r.now_ms r.redis_ms _ (limit_of cfg key)
                  (db.keys key) pos t.late v (ground (arith, pass)))
        ]

    pub check_one-Charged :
        (db : AdmissionDb)
        → 0 < limit_of cfg key
        → r.reach key ≡ reached
        → Lasts (window_ms cfg) (db.keys key)
        → (check_one cfg key r db).0 ≡ passed
        → Charged r db (check_one cfg key r db).1
    unfolding check_one
    check_one-Charged db pos up v ok = elim (Bool-cases (limit_of cfg key == 0)) [
      | inl off ↦ absurd (ground (arith, off, pos))
      | inr on ↦ rw (on, up, check_one) (checked-Charged db pos v (rw (on, up, check_one) at ok))
    ]
