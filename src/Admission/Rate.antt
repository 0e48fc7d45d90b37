-- ===== src/Admission/Rate.antt =====
-- The rate of the bids that backend/internal/gateway/bid_admission.go permits.
use native.Mathlib.Nat.{suc-mul, zero-mul}
use live_auction.Common.{
  ℕ, suc, ◌+◌, ◌*◌, ◌≤◌, ◌<◌, ◌≡◌, refl, sym, subst, Bool, true, ◌&&◌, List, [], ◌∷◌, max, leb, inl,
  inr, ◌⊎◌, Bool-cases, All, if◌then◌else◌, arith,
}
use live_auction.Admission.Data.{LimitKey, reached, AdmissionConfig, BidRequest, AdmissionDb}
use live_auction.Admission.Limits.{window_ms, emission_ms, limit_of, checks}
use live_auction.Admission.{
  Admitted, permitted, replayed, not_admitted, release_permit, admit, admit_confirm, AdmissionOp,
  do_admit, do_admit_confirm, do_release, is_permitted, run_admission,
}
use live_auction.Admission.Script.{tat_of, Lasts, Charge}
use live_auction.Admission.Charged.{IsTimely, Moves, Charged}
use live_auction.Admission.Paid.{has_key}
use live_auction.Admission.Permitted.{
  release_keys, admit-Moves, admit-Charged, admit_confirm-Moves, admit_confirm-Charged,
}

-- A request whose scripts Redis runs in time and answers.
abbrev pub IsServed : AdmissionConfig → AdmissionOp → Type 0
IsServed cfg (do_admit r) = IsTimely cfg r × ((k : LimitKey) → r.reach k ≡ reached)
IsServed cfg (do_admit_confirm r) = IsTimely cfg r × ((k : LimitKey) → r.reach k ≡ reached)
IsServed cfg (do_release auction) = Unit

-- The requests at the key whose time at the gateway is from `s` to `s + w`.
abbrev pub is_counted : LimitKey → ℕ → ℕ → BidRequest → Bool
is_counted key s w r = has_key key (checks r) && leb s r.now_ms && leb r.now_ms (s + w)

unfoldable pub count : LimitKey → ℕ → ℕ → List BidRequest → ℕ
unfolding has_key
count key s w [] = 0
count key s w (r ∷ rs) = let n = count key s w rs in if is_counted key s w r then suc n else n

abbrev Within : ℕ → ℕ → ℕ → ℕ → ℕ → ℕ → Type 0
Within tat s w emission burst n = (n ≡ 0) ⊎ (max tat s + n * emission ≤ s + w + burst * emission)

Within-more :
    (tat tat' s w emission burst n : ℕ)
    → tat ≤ tat'
    → Within tat' s w emission burst n
    → Within tat s w emission burst n
Within-more tat tat' s w emission burst n g (inl z) = inl z
Within-more tat tat' s w emission burst n g (inr b) = inr (omega (arith, g, b))

zero_times : (n k : ℕ) → n ≡ 0 → n * k ≡ 0
zero_times n k z = rw z (zero-mul k)

Within-Charge :
    (now tat tat' s w emission burst n : ℕ)
    → s ≤ now
    → now ≤ s + w
    → Charge now emission burst tat tat'
    → Within tat' s w emission burst n
    → Within tat s w emission burst (suc n)
Within-Charge now tat tat' s w emission burst n from to c (inl z) =
    inr (omega (arith, suc-mul n emission, zero_times n emission z, c.paid, c.room, from, to))
Within-Charge now tat tat' s w emission burst n from to c (inr b) =
    inr (omega (arith, suc-mul n emission, c.paid, c.reached, b, from))

module _ (cfg : AdmissionConfig) (key : LimitKey) (s w : ℕ) (on : cfg.admission_enabled ≡ true)
    (redis : cfg.has_redis ≡ true) (pos : 0 < limit_of cfg key) where
  abbrev emission : ℕ
  emission = emission_ms (limit_of cfg key) (window_ms cfg)

  abbrev Kept : AdmissionDb → List BidRequest → Type 0
  Kept db rs = Within (tat_of (db.keys key)) s w emission (limit_of cfg key) (count key s w rs)

  -- A request that is answered by `x`.
  answer-Kept :
      (r : BidRequest) (db : AdmissionDb) (x : Admitted × AdmissionDb) (rs : List BidRequest)
      → Moves cfg key db x.1
      → (has_key key (checks r) ≡ true → x.0 ≡ permitted → Charged cfg key r db x.1)
      → Kept x.1 rs
      → Kept db (if is_permitted x.0 then r ∷ rs else rs)
  unfolding count
  answer-Kept r db (replayed response, db') rs m c h =
      Within-more (tat_of (db.keys key)) (tat_of (db'.keys key)) s w emission (limit_of cfg key)
        (count key s w rs) m.grows h
  answer-Kept r db (not_admitted e, db') rs m c h =
      Within-more (tat_of (db.keys key)) (tat_of (db'.keys key)) s w emission (limit_of cfg key)
        (count key s w rs) m.grows h
  answer-Kept r db (permitted, db') rs m c h =
      let still =
        Within-more (tat_of (db.keys key)) (tat_of (db'.keys key)) s w emission (limit_of cfg key)
          (count key s w rs) m.grows h in
      elim (Bool-cases (has_key key (checks r))) [
        | inr other ↦ rw other still
        | inl among ↦ elim (Bool-cases (leb s r.now_ms && leb r.now_ms (s + w))) [
          | inr out ↦ rw (among, out) still
          | inl span ↦
              rw (among, span)
                (Within-Charge r.now_ms (tat_of (db.keys key)) (tat_of (db'.keys key)) s w emission
                  (limit_of cfg key) (count key s w rs) (ground (arith, span))
                  (ground (arith, span)) (c among refl) h)
        ]
      ]

  run_admission-Kept :
      (ops : List AdmissionOp) (db : AdmissionDb)
      → Lasts (window_ms cfg) (db.keys key)
      → All (IsServed cfg) ops
      → Kept db (run_admission cfg ops db).0
  unfolding run_admission count
  run_admission-Kept [] db v served = inl refl
  run_admission-Kept (do_admit r ∷ ops) db v ((t, up), served) =
      let m = admit-Moves cfg key r t db v in
      let after = (admit cfg r db).1 in
      answer-Kept r db (admit cfg r db) (run_admission cfg ops after).0 m
        (λ among. admit-Charged cfg key r t up pos on redis among db v)
        (run_admission-Kept ops after m.lasts served)
  run_admission-Kept (do_admit_confirm r ∷ ops) db v ((t, up), served) =
      let m = admit_confirm-Moves cfg key r t db v in
      let after = (admit_confirm cfg r db).1 in
      answer-Kept r db (admit_confirm cfg r db) (run_admission cfg ops after).0 m
        (λ among. admit_confirm-Charged cfg key r t up pos on redis among db v)
        (run_admission-Kept ops after m.lasts served)
  run_admission-Kept (do_release auction ∷ ops) db v served =
      subst
        (λ k.
          Within (tat_of k) s w emission (limit_of cfg key)
            (count key s w (run_admission cfg ops (release_permit cfg auction db)).0))
        (release_keys cfg key auction db)
        (run_admission-Kept ops (release_permit cfg auction db)
          (subst (λ k. Lasts (window_ms cfg) k) (sym (release_keys cfg key auction db)) v) served.1)

-- While Redis answers and its scripts run within a window after the time of the request at the gateway:
-- the bids and confirmations of a user, of an IP, or of all bidders of an auction that are permitted
-- in any `w` milliseconds are at most the limit and one more for each emission interval in `w`, in whatever order
-- they reach Redis, and also where the key expires in between. The key of the limit is missing at the
-- start or outlives its value by a window.
pub run_admission-rate :
    (cfg : AdmissionConfig) (key : LimitKey) (s w : ℕ) (ops : List AdmissionOp) (db : AdmissionDb)
    → cfg.admission_enabled ≡ true
    → cfg.has_redis ≡ true
    → 0 < limit_of cfg key
    → Lasts (window_ms cfg) (db.keys key)
    → All (IsServed cfg) ops
    → let n = count key s w (run_admission cfg ops db).0 in
      n * emission_ms (limit_of cfg key) (window_ms cfg)
      ≤ w + limit_of cfg key * emission_ms (limit_of cfg key) (window_ms cfg)
run_admission-rate cfg key s w ops db on redis pos v served =
    elim (run_admission-Kept cfg key s w on redis pos ops db v served) [
      | inl z ↦ omega (
        arith,
        zero_times (count key s w (run_admission cfg ops db).0)
            (emission_ms (limit_of cfg key) (window_ms cfg)) z,
      )
      | inr b ↦ omega (arith, b)
    ]
