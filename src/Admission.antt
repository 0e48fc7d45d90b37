-- ===== src/Admission.antt =====
-- The admission of bids, backend/internal/gateway/bid_admission.go: the replay of a completed bid, the
-- rate limits in Redis, and the permits of an auction in one gateway.
pub mod Data
pub mod Limits
pub mod Script
pub mod Charged
pub mod Paid
pub mod Permitted
pub mod Rate
pub mod InFlight
mod Tests
use live_auction.Common.{
  ℕ, suc, ◌-◌, Bool, true, false, ◌&&◌, ◌||◌, not, Option, none, some, List, [], ◌∷◌, ltb, ◌==◌,
  update, if◌then◌else◌,
}
use live_auction.Admission.Data.{
  invalid_argument, idempotency_key_reused_with_different_request, idempotency_timeout,
  processing_retry_later, bid_auction_too_hot, AdmissionError, idem_processing, idem_completed,
  idem_failed, IdemResultCode, code_timeout, code_fat_finger_confirm_required, IdemStatus,
  IdemRecord, Reach, AdmissionConfig, BidRequest, AdmissionDb,
}
use live_auction.Admission.Limits.{Limited, within_limits, limited, check_redis_limits}

-- What `completedBidReplay` finds: nothing, the stored response, or an error.
pub data Found : Type 0 where
  not_found : Found
  found : ℕ → Found
  found_error : AdmissionError → Found

abbrev is_overdue : IdemStatus → Option ℕ → ℕ → Bool
is_overdue idem_processing (some until) now = ltb until now
is_overdue _ _ now = false

abbrev is_completed : IdemStatus → Bool
is_completed idem_completed = true
is_completed _ = false

-- `markBidIdempotencyTimeout`.
abbrev timed_out : ℕ → IdemRecord → IdemRecord
timed_out now i = record i {
  status = idem_failed;
  locked_until = none;
  completed_at = some now;
  result_code = some code_timeout;
}

unfoldable pub completed_bid_replay : BidRequest → AdmissionDb → Found × AdmissionDb
completed_bid_replay r db = elim (db.idem r.auction_id r.user_id r.idempotency_key) [
  | none ↦ (not_found, db)
  | some i ↦
      if not (i.request_hash == r.request_hash)
      then (found_error idempotency_key_reused_with_different_request, db)
      else if is_overdue i.status i.locked_until r.now_ms
      then (
        found_error idempotency_timeout,
        record db {
          idem = update db.idem r.auction_id (
              update (db.idem r.auction_id) r.user_id (
                update (db.idem r.auction_id r.user_id) r.idempotency_key
                  (some (timed_out r.now_ms i))));
        },
      )
      else if not (is_completed i.status)
      then (found_error processing_retry_later, db)
      else (found i.response, db)
]

pub data Admitted : Type 0 where
  replayed : ℕ → Admitted
  permitted : Admitted
  not_admitted : AdmissionError → Admitted

abbrev pub max_in_flight : AdmissionConfig → ℕ
max_in_flight cfg =
    if ltb 0 cfg.bid_auction_max_in_flight then cfg.bid_auction_max_in_flight else 64

abbrev reject_hot : AdmissionDb → AdmissionDb
reject_hot db = record db { rejects = bid_auction_too_hot 1000 ∷ db.rejects }

-- `acquireLocalPermit` and the release of a permit.
unfoldable pub acquire_local_permit :
    AdmissionConfig → BidRequest → AdmissionDb → Admitted × AdmissionDb
acquire_local_permit cfg r db =
    if not cfg.admission_enabled
    then (permitted, db)
    else if ltb (db.in_flight r.auction_id) (max_in_flight cfg)
    then (
      permitted,
      record db { in_flight = update db.in_flight r.auction_id (suc (db.in_flight r.auction_id)) },
    )
    else (not_admitted (bid_auction_too_hot 1000), reject_hot db)

unfoldable pub release_permit : AdmissionConfig → ℕ → AdmissionDb → AdmissionDb
release_permit cfg auction db =
    if cfg.admission_enabled
    then record db { in_flight = update db.in_flight auction (db.in_flight auction - 1) }
    else db

abbrev after_limits : AdmissionConfig → BidRequest → Limited × AdmissionDb → Admitted × AdmissionDb
after_limits cfg r (within_limits, db) = acquire_local_permit cfg r db
after_limits cfg r (limited e, db) = (not_admitted e, db)

abbrev after_replay : AdmissionConfig → BidRequest → Found × AdmissionDb → Admitted × AdmissionDb
after_replay cfg r (found response, db) = (replayed response, db)
after_replay cfg r (found_error e, db) = (not_admitted e, db)
after_replay cfg r (not_found, db) = after_limits cfg r (check_redis_limits cfg r db)

abbrev pub lacks_bid : BidRequest → Bool
lacks_bid r = r.body_key == 0 || not (ltb 0 r.amount_cents)

abbrev pub lacks_key : BidRequest → Bool
lacks_key r = r.idempotency_key == 0 || not (r.idempotency_key == r.body_key)

-- `admit`.
unfoldable pub admit : AdmissionConfig → BidRequest → AdmissionDb → Admitted × AdmissionDb
unfolding completed_bid_replay acquire_local_permit check_redis_limits
admit cfg r db =
    if lacks_bid r
    then (not_admitted invalid_argument, db)
    else if lacks_key r
    then (not_admitted invalid_argument, db)
    else after_replay cfg r (completed_bid_replay r db)

abbrev is_settled_code : Option IdemResultCode → Bool
is_settled_code none = false
is_settled_code (some code_fat_finger_confirm_required) = false
is_settled_code (some _) = true

-- `completedConfirmReplay` compares no request hash.
unfoldable pub completed_confirm_replay : BidRequest → AdmissionDb → Found
completed_confirm_replay r db = elim (db.idem r.auction_id r.user_id r.idempotency_key) [
  | none ↦ not_found
  | some i ↦
      if is_completed i.status && is_settled_code i.result_code then found i.response else not_found
]

abbrev pub lacks_confirm : BidRequest → Bool
lacks_confirm r =
    r.confirm_token == 0
    || r.body_key == 0
    || r.idempotency_key == 0
    || not (r.idempotency_key == r.body_key)

-- `admitConfirm`.
unfoldable pub admit_confirm : AdmissionConfig → BidRequest → AdmissionDb → Admitted × AdmissionDb
unfolding completed_confirm_replay acquire_local_permit check_redis_limits
admit_confirm cfg r db =
    if lacks_confirm r
    then (not_admitted invalid_argument, db)
    else after_replay cfg r (completed_confirm_replay r db, db)

-- Requests that reach a gateway, and the ends of their handlers.
pub data AdmissionOp : Type 0 where
  do_admit do_admit_confirm : BidRequest → AdmissionOp
  do_release : ℕ → AdmissionOp

abbrev pub is_permitted : Admitted → Bool
is_permitted permitted = true
is_permitted _ = false

-- The requests that are permitted in a run, and what it leaves.
unfoldable pub run_admission :
    AdmissionConfig → List AdmissionOp → AdmissionDb → List BidRequest × AdmissionDb
unfolding admit admit_confirm release_permit
run_admission cfg [] db = ([], db)
run_admission cfg (do_admit r ∷ ops) db =
    let (a, db') = admit cfg r db in
    let (permits, end) = run_admission cfg ops db' in
    (if is_permitted a then r ∷ permits else permits, end)
run_admission cfg (do_admit_confirm r ∷ ops) db =
    let (a, db') = admit_confirm cfg r db in
    let (permits, end) = run_admission cfg ops db' in
    (if is_permitted a then r ∷ permits else permits, end)
run_admission cfg (do_release auction ∷ ops) db =
    run_admission cfg ops (release_permit cfg auction db)
