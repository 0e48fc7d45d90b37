-- ===== src/Admission/InFlight.antt =====
-- The permits of an auction in one gateway, backend/internal/gateway/bid_admission.go.
use live_auction.Common.{
  ℕ, suc, ◌+◌, ◌≤◌, ◌≡◌, refl, subst, ◌∙◌, ◌&&◌, ◌||◌, not, true, List, [], ◌∷◌, ltb, ◌==◌, inl,
  inr, Bool-cases, if◌then◌else◌, arith,
}
use live_auction.Admission.Data.{
  LimitKey, Reach, reached, unanswered, unreached, AdmissionConfig, BidRequest, AdmissionDb,
}
use live_auction.Admission.Limits.{
  window_ms, limit_of, checks, Check, passed, opened, refused, check_reach, check_one, next_check,
  Limited, within_limits, limited, check_each, check_redis_limits, eval_gcra_limit,
}
use live_auction.Admission.{
  Found, not_found, found, found_error, completed_bid_replay, max_in_flight, acquire_local_permit,
  release_permit, after_limits, after_replay, lacks_bid, lacks_key, admit, lacks_confirm,
  completed_confirm_replay, admit_confirm, AdmissionOp, do_admit, do_admit_confirm, do_release,
  run_admission, Admitted, is_permitted,
}

check_reach-in_flight :
    (cfg : AdmissionConfig) (k : LimitKey) (r : BidRequest) (reach : Reach) (db : AdmissionDb)
    → (check_reach cfg k r reach db).1.in_flight ≡ db.in_flight
unfolding eval_gcra_limit
check_reach-in_flight cfg k r reached db =
    elim (Bool-cases (ltb 0 (eval_gcra_limit k (limit_of cfg k) (window_ms cfg) r db).0)) [
      | inl over ↦ rw over refl
      | inr pass ↦ rw pass refl
    ]
check_reach-in_flight cfg k r unanswered db = refl
check_reach-in_flight cfg k r unreached db = refl

check_one-in_flight :
    (cfg : AdmissionConfig) (k : LimitKey) (r : BidRequest) (db : AdmissionDb)
    → (check_one cfg k r db).1.in_flight ≡ db.in_flight
unfolding check_one
check_one-in_flight cfg k r db = elim (Bool-cases (limit_of cfg k == 0)) [
  | inl off ↦ rw off refl
  | inr on ↦ rw on (check_reach-in_flight cfg k r (r.reach k) db)
]

next_check-in_flight :
    (c : Check) (db : AdmissionDb) (rest : Limited × AdmissionDb)
    → rest.1.in_flight ≡ db.in_flight
    → (next_check c db rest).1.in_flight ≡ db.in_flight
next_check-in_flight passed db rest h = h
next_check-in_flight opened db rest h = refl
next_check-in_flight (refused e) db rest h = refl

check_each-in_flight :
    (cfg : AdmissionConfig) (ks : List LimitKey) (r : BidRequest) (db : AdmissionDb)
    → (check_each cfg ks r db).1.in_flight ≡ db.in_flight
unfolding check_each
check_each-in_flight cfg [] r db = refl
check_each-in_flight cfg (k ∷ ks) r db =
    let (c, db') = check_one cfg k r db in
    next_check-in_flight c db' (check_each cfg ks r db') (check_each-in_flight cfg ks r db')
    ∙ check_one-in_flight cfg k r db

limits-in_flight :
    (cfg : AdmissionConfig) (r : BidRequest) (db : AdmissionDb)
    → (check_redis_limits cfg r db).1.in_flight ≡ db.in_flight
unfolding check_redis_limits
limits-in_flight cfg r db = elim (Bool-cases (not cfg.admission_enabled || not cfg.has_redis)) [
  | inl off ↦ rw off refl
  | inr on ↦ rw on (check_each-in_flight cfg (checks r) r db)
]

replay-in_flight :
    (r : BidRequest) (db : AdmissionDb) → (completed_bid_replay r db).1.in_flight ≡ db.in_flight
unfolding completed_bid_replay
replay-in_flight r db = ground arith

-- The slots of an auction that an answer to a request takes.
abbrev taken : Admitted → BidRequest → ℕ → ℕ
taken a r auction = if is_permitted a && r.auction_id == auction then 1 else 0

-- From the counters `before`, an answer takes its slot, and no counter passes the limit.
abbrev Takes : AdmissionConfig → BidRequest → (ℕ → ℕ) → Admitted × AdmissionDb → Type 0
Takes cfg r before (a, db) =
    (auction : ℕ)
    → before auction ≤ max_in_flight cfg
    → (before auction + taken a r auction ≡ db.in_flight auction)
      × (db.in_flight auction ≤ max_in_flight cfg)

module _ (cfg : AdmissionConfig) (enabled : cfg.admission_enabled ≡ true) where
  acquire-Takes :
      (r : BidRequest) (db : AdmissionDb) → Takes cfg r db.in_flight (acquire_local_permit cfg r db)
  unfolding acquire_local_permit
  acquire-Takes r db auction v = ground (arith, enabled)

  after_limits-Takes :
      (r : BidRequest) (l : Limited) (db : AdmissionDb)
      → Takes cfg r db.in_flight (after_limits cfg r (l, db))
  after_limits-Takes r within_limits db = acquire-Takes r db
  after_limits-Takes r (limited e) db = λ auction v. (omega arith, v)

  after_replay-Takes :
      (r : BidRequest) (f : Found) (db : AdmissionDb)
      → Takes cfg r db.in_flight (after_replay cfg r (f, db))
  after_replay-Takes r not_found db =
      let (l, db') = check_redis_limits cfg r db in
      subst (λ f. Takes cfg r f (after_limits cfg r (l, db'))) (limits-in_flight cfg r db)
        (after_limits-Takes r l db')
  after_replay-Takes r (found x) db = λ auction v. (omega arith, v)
  after_replay-Takes r (found_error e) db = λ auction v. (omega arith, v)

  admit-Takes : (r : BidRequest) (db : AdmissionDb) → Takes cfg r db.in_flight (admit cfg r db)
  unfolding admit
  admit-Takes r db = elim (Bool-cases (lacks_bid r)) [
    | inl bad ↦ rw (bad, admit) (λ auction v. (omega arith, v))
    | inr good ↦
        rw (good, admit)
          (elim (Bool-cases (lacks_key r)) [
            | inl bad ↦ rw bad (λ auction v. (omega arith, v))
            | inr keyed ↦
                let (f, db') = completed_bid_replay r db in
                rw keyed (
                  subst (λ g. Takes cfg r g (after_replay cfg r (f, db'))) (replay-in_flight r db)
                    (after_replay-Takes r f db'))
          ])
  ]

  confirm-Takes :
      (r : BidRequest) (db : AdmissionDb) → Takes cfg r db.in_flight (admit_confirm cfg r db)
  unfolding admit_confirm
  confirm-Takes r db = elim (Bool-cases (lacks_confirm r)) [
    | inl bad ↦ rw (bad, admit_confirm) (λ auction v. (omega arith, v))
    | inr good ↦ rw (good, admit_confirm) (after_replay-Takes r (completed_confirm_replay r db) db)
  ]

  release_permit-Returns :
      (a : ℕ) (db : AdmissionDb) (auction : ℕ)
      → db.in_flight auction ≤ max_in_flight cfg
      → (db.in_flight auction
          ≤ (release_permit cfg a db).in_flight auction + (if a == auction then 1 else 0))
        × ((release_permit cfg a db).in_flight auction ≤ max_in_flight cfg)
  unfolding release_permit
  release_permit-Returns a db auction v = ground (arith, enabled)

-- The requests for an auction among those that are permitted.
abbrev pub permits_of : ℕ → List BidRequest → ℕ
permits_of auction [] = 0
permits_of auction (r ∷ rs) =
    let rest = permits_of auction rs in if r.auction_id == auction then suc rest else rest

-- The handlers of an auction that end.
abbrev pub releases_of : ℕ → List AdmissionOp → ℕ
releases_of auction [] = 0
releases_of auction (do_release a ∷ ops) = (if a == auction then 1 else 0) + releases_of auction ops
releases_of auction (_ ∷ ops) = releases_of auction ops

permits-taken :
    (auction : ℕ) (a : Admitted) (r : BidRequest) (rs : List BidRequest)
    → permits_of auction (if is_permitted a then r ∷ rs else rs)
      ≡ taken a r auction + permits_of auction rs
permits-taken auction a r rs = ground arith

-- With the admission enabled, however requests arrive and handlers end: each permit of an auction is a
-- slot that is held until a handler of it ends, so that the permits given and the slots held before
-- are at most the slots held in the end and the handlers that ended, and never more than
-- `BidAuctionMaxInFlight` slots (64 where it is not set) are held.
pub run_admission-in_flight :
    (cfg : AdmissionConfig) (ops : List AdmissionOp) (db : AdmissionDb) (auction : ℕ)
    → cfg.admission_enabled ≡ true
    → db.in_flight auction ≤ max_in_flight cfg
    → let (permits, db') = run_admission cfg ops db in
      (permits_of auction permits + db.in_flight auction
        ≤ db'.in_flight auction + releases_of auction ops)
      × (db'.in_flight auction ≤ max_in_flight cfg)
unfolding run_admission
run_admission-in_flight cfg [] db auction on v = (omega arith, v)
run_admission-in_flight cfg (do_admit r ∷ ops) db auction on v =
    let (a, db') = admit cfg r db in
    let (took, held) = admit-Takes cfg on r db auction v in
    let (later, end) = run_admission-in_flight cfg ops db' auction on held in
    (rw (permits-taken auction a r (run_admission cfg ops db').0) (omega arith), end)
run_admission-in_flight cfg (do_admit_confirm r ∷ ops) db auction on v =
    let (a, db') = admit_confirm cfg r db in
    let (took, held) = confirm-Takes cfg on r db auction v in
    let (later, end) = run_admission-in_flight cfg ops db' auction on held in
    (rw (permits-taken auction a r (run_admission cfg ops db').0) (omega arith), end)
run_admission-in_flight cfg (do_release a ∷ ops) db auction on v =
    let (back, held) = release_permit-Returns cfg on a db auction v in
    let (later, end) = run_admission-in_flight cfg ops (release_permit cfg a db) auction on held in
    (omega arith, end)
