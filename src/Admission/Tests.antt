-- ===== src/Admission/Tests.antt =====
-- The admission of backend/internal/gateway/bid_admission.go with three bids of one user.
use live_auction.Common.{
  ℕ, ◌+◌, ◌*◌, ◌≤◌, ◌≡◌, refl, true, none, some, List, [], ◌∷◌, All, map, arith,
}
use live_auction.Admission.Data.{
  rate_limited, idempotency_timeout, idem_processing, idem_completed, code_other,
  code_fat_finger_confirm_required, IdemRecord, bid_limit_user_key, reached, AdmissionConfig,
  BidRequest, AdmissionDb,
}
use live_auction.Admission.Limits.{emission_ms, limit_of, window_ms}
use live_auction.Admission.{
  replayed, permitted, not_admitted, max_in_flight, admit, admit_confirm, AdmissionOp, do_admit,
  do_release, run_admission,
}
use live_auction.Admission.Rate.{IsServed, count, run_admission-rate}
use live_auction.Admission.InFlight.{permits_of, releases_of, run_admission-in_flight}

-- Two bids per user and second, and two permits.
abbrev two_a_second : AdmissionConfig
two_a_second = record {
  admission_enabled = true;
  has_redis = true;
  bid_limit_window = 1000000000;
  bid_user_limit = 2;
  bid_ip_limit = 0;
  bid_auction_limit = 100;
  bid_auction_max_in_flight = 2;
}

abbrev bid_of_7 : ℕ → ℕ → BidRequest
bid_of_7 id now = record {
  auction_id = 1;
  user_id = 7;
  ip = 4;
  body_key = id;
  idempotency_key = id;
  amount_cents = 1500;
  request_hash = id;
  confirm_token = 0;
  now_ms = now;
  redis_ms = now + 5;
  reach = λ _. reached;
}

abbrev no_bids : AdmissionDb
no_bids = record {
  idem = λ _ _ _. none;
  keys = λ _. none;
  in_flight = λ _. 0;
  redis_downs = 0;
  rejects = [];
}

abbrev three_bids : List AdmissionOp
three_bids =
    do_admit (bid_of_7 11 10000)
    ∷ do_admit (bid_of_7 12 10100)
    ∷ do_release 1
    ∷ do_release 1
    ∷ do_admit (bid_of_7 13 10200)
    ∷ do_admit (bid_of_7 14 10500)
    ∷ []

-- The third bid comes too early and is told to wait, the fourth passes.
third_waits : (run_admission two_a_second three_bids no_bids).1.rejects ≡ rate_limited 300 ∷ []
unfolding run_admission
third_waits = refl

three_permitted :
    map (λ r. r.body_key) (run_admission two_a_second three_bids no_bids).0 ≡ 11 ∷ 12 ∷ 14 ∷ []
unfolding run_admission
three_permitted = refl

abbrev stored : IdemRecord
stored = record {
  request_hash = 11;
  status = idem_completed;
  response = 42;
  locked_until = none;
  completed_at = some 9000;
  result_code = some code_other;
}

known_replayed :
    (admit two_a_second (bid_of_7 11 10000) (record no_bids { idem = λ _ _ _. some stored })).0
    ≡ replayed 42
unfolding admit
known_replayed = refl

stuck_times_out :
    (admit two_a_second (bid_of_7 11 10000) (record no_bids {
      idem = λ _ _ _. some (record stored { status = idem_processing; locked_until = some 9000 });
    })).0
    ≡ not_admitted idempotency_timeout
unfolding admit
stuck_times_out = refl

-- The record of the bid that waits for its confirmation is not replayed to the confirmation.
confirm_goes_on :
    (admit_confirm two_a_second
      (record (bid_of_7 11 10000) { confirm_token = 5 })
      (record no_bids {
        idem =
            λ _ _ _. some (record stored { result_code = some code_fat_finger_confirm_required });
      })).0
    ≡ permitted
unfolding admit_confirm
confirm_goes_on = refl

bid_of_7-IsServed : (id now : ℕ) → IsServed two_a_second (do_admit (bid_of_7 id now))
bid_of_7-IsServed id now = (record { early = omega arith; late = omega arith }, λ k. refl)

three_bids-IsServed : All (IsServed two_a_second) three_bids
three_bids-IsServed = (
  bid_of_7-IsServed 11 10000,
  (
    bid_of_7-IsServed 12 10100,
    (tt, (tt, (bid_of_7-IsServed 13 10200, (bid_of_7-IsServed 14 10500, tt)))),
  ),
)

run_admission-rate_example :
    count (bid_limit_user_key 1 7) 10000 500 (run_admission two_a_second three_bids no_bids).0
      * emission_ms (limit_of two_a_second (bid_limit_user_key 1 7)) (window_ms two_a_second)
    ≤ 500
      + 2 * emission_ms (limit_of two_a_second (bid_limit_user_key 1 7)) (window_ms two_a_second)
run_admission-rate_example =
    run_admission-rate two_a_second (bid_limit_user_key 1 7) 10000 500 three_bids no_bids refl refl
      (omega arith) tt three_bids-IsServed

run_admission-in_flight_example :
    (permits_of 1 (run_admission two_a_second three_bids no_bids).0 + 0
      ≤ (run_admission two_a_second three_bids no_bids).1.in_flight 1 + releases_of 1 three_bids)
    × ((run_admission two_a_second three_bids no_bids).1.in_flight 1 ≤ max_in_flight two_a_second)
run_admission-in_flight_example =
    run_admission-in_flight two_a_second three_bids no_bids 1 refl (omega arith)
