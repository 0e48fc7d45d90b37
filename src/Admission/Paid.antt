-- ===== src/Admission/Paid.antt =====
-- `checkRedisLimits` and `admit` of backend/internal/gateway/bid_admission.go: a bid that is permitted has
-- paid at each of its keys.
use live_auction.Common.{
  ◌<◌, ◌≡◌, ◌≢◌, refl, sym, subst, Bool, true, false, ◌||◌, not, List, [], ◌∷◌, ltb, ◌==◌, inl, inr,
  Bool-cases, arith,
}
use live_auction.Admission.Data.{LimitKey, reached, AdmissionConfig, BidRequest, AdmissionDb}
use live_auction.Admission.Limits.{
  is_same_key, eval_gcra_limit, window_ms, limit_of, checks, Check, passed, opened, refused,
  check_reach, check_one, within_limits, check_each, check_redis_limits,
}
use live_auction.Admission.Script.{Lasts}
use live_auction.Admission.Charged.{
  IsTimely, same_key→≡, Moves, Charged, check_one-Moves, check_one-Charged, check_each-Moves,
}

-- The key is one of those that the bid is checked at.
unfoldable pub has_key : LimitKey → List LimitKey → Bool
has_key key [] = false
has_key key (k ∷ ks) = let later = has_key key ks in is_same_key key k || later

module _ (cfg : AdmissionConfig) (key : LimitKey) (r : BidRequest) (t : IsTimely cfg r)
    (up : (k : LimitKey) → r.reach k ≡ reached) (pos : 0 < limit_of cfg key) where
  check_reach-ne-opened :
      (k : LimitKey) (db : AdmissionDb) → (check_reach cfg k r reached db).0 ≢ opened
  check_reach-ne-opened k db e =
      let retry = (eval_gcra_limit k (limit_of cfg k) (window_ms cfg) r db).0 in
      elim (Bool-cases (ltb 0 retry)) [
        | inl over ↦ cc (rw over at e)
        | inr pass ↦ cc (rw pass at e)
      ]

  check_one-ne-opened : (k : LimitKey) (db : AdmissionDb) → (check_one cfg k r db).0 ≢ opened
  unfolding check_one
  check_one-ne-opened k db e = elim (Bool-cases (limit_of cfg k == 0)) [
    | inl off ↦ cc (rw (off, check_one) at e)
    | inr on ↦ check_reach-ne-opened k db (rw (on, up k, check_one) at e)
  ]

  Charged-before :
      (a b c : AdmissionDb) → Moves cfg key a b → Charged cfg key r b c → Charged cfg key r a c
  Charged-before a b c m h = record {
    level = h.level;
    paid = omega (arith, m.grows, h.paid);
    room = h.room;
    reached = h.reached;
  }

  Charged-after :
      (a b c : AdmissionDb) → Charged cfg key r a b → Moves cfg key b c → Charged cfg key r a c
  Charged-after a b c h m = record {
    level = h.level;
    paid = h.paid;
    room = h.room;
    reached = omega (arith, m.grows, h.reached);
  }

  check_each-Charged :
      (ks : List LimitKey) (db : AdmissionDb)
      → has_key key ks ≡ true
      → Lasts (window_ms cfg) (db.keys key)
      → (check_each cfg ks r db).0 ≡ within_limits
      → Charged cfg key r db (check_each cfg ks r db).1
  unfolding check_each has_key
  check_each-Charged [] db h v ok = absurd (cc)
  check_each-Charged (k ∷ ks) db h v ok =
      by_check (check_one cfg k r db).0 refl
        (λ among pass. check_each-Charged ks (check_one cfg k r db).1 among m.lasts pass)
    where
      m : Moves cfg key db (check_one cfg k r db).1
      m = check_one-Moves cfg key r t k db v

      by_check :
          (c : Check)
          → (check_one cfg k r db).0 ≡ c
          → (has_key key ks ≡ true
              → (check_each cfg ks r (check_one cfg k r db).1).0 ≡ within_limits
              → Charged cfg key r
                  (check_one cfg k r db).1
                  (check_each cfg ks r (check_one cfg k r db).1).1)
          → Charged cfg key r db (check_each cfg (k ∷ ks) r db).1
      by_check opened e later = absurd (check_one-ne-opened k db e)
      by_check (refused x) e later = absurd (cc (rw (e, check_each) at ok))
      by_check passed e later =
          rw (e, check_each)
            (elim (Bool-cases (is_same_key key k)) [
              | inl hit ↦
                  let same = same_key→≡ key k hit in
                  Charged-after db (check_one cfg k r db).1
                    (check_each cfg ks r (check_one cfg k r db).1).1
                    (subst (λ j. Charged cfg key r db (check_one cfg j r db).1) same
                      (check_one-Charged cfg key r t db pos (up key) v
                        (subst (λ j. (check_one cfg j r db).0 ≡ passed) (sym same) e)))
                    (check_each-Moves cfg key r t ks (check_one cfg k r db).1 m.lasts)
              | inr miss ↦
                  Charged-before db (check_one cfg k r db).1
                    (check_each cfg ks r (check_one cfg k r db).1).1 m
                    (later (rw (miss, has_key) at h) (rw (e, check_each) at ok))
            ])

  pub check_redis_limits-Charged :
      (db : AdmissionDb)
      → cfg.admission_enabled ≡ true
      → cfg.has_redis ≡ true
      → has_key key (checks r) ≡ true
      → Lasts (window_ms cfg) (db.keys key)
      → (check_redis_limits cfg r db).0 ≡ within_limits
      → Charged cfg key r db (check_redis_limits cfg r db).1
  unfolding check_redis_limits
  check_redis_limits-Charged db on redis h v ok =
      rw (on, redis, check_redis_limits)
        (check_each-Charged (checks r) db h v (rw (on, redis, check_redis_limits) at ok))

pub check_redis_limits-Moves :
    (cfg : AdmissionConfig) (key : LimitKey) (r : BidRequest)
    → IsTimely cfg r
    → (db : AdmissionDb) → Lasts (window_ms cfg) (db.keys key)
    → Moves cfg key db (check_redis_limits cfg r db).1
unfolding check_redis_limits
check_redis_limits-Moves cfg key r t db v =
    elim (Bool-cases (not cfg.admission_enabled || not cfg.has_redis)) [
      | inl off ↦ rw off (record { lasts = v; grows = omega arith })
      | inr on ↦ rw on (check_each-Moves cfg key r t (checks r) db v)
    ]
