-- ===== src/Admission/Limits.antt =====
-- The rate limits of backend/internal/gateway/bid_admission.go: the GCRA script, evalGCRALimit and
-- checkRedisLimits.
use live_auction.Common.{
  ℕ, zero, suc, ◌+◌, ◌*◌, ◌-◌, ◌/◌, Bool, false, ◌&&◌, ◌||◌, not, Option, none, some, List, [], ◌∷◌,
  max, ltb, ◌==◌, if◌then◌else◌,
}
use live_auction.Admission.Data.{
  AdmissionError, rate_limited, bid_auction_too_hot, LimitKey, bid_limit_user_key, bid_limit_ip_key,
  bid_limit_auction_key, Tat, Reach, reached, unanswered, unreached, AdmissionConfig, BidRequest,
  AdmissionDb,
}

abbrev pub is_same_key : LimitKey → LimitKey → Bool
is_same_key (bid_limit_user_key a u) (bid_limit_user_key b v) = a == b && u == v
is_same_key (bid_limit_ip_key a u) (bid_limit_ip_key b v) = a == b && u == v
is_same_key (bid_limit_auction_key a) (bid_limit_auction_key b) = a == b
is_same_key _ _ = false

abbrev pub set_key : (LimitKey → Option Tat) → LimitKey → Option Tat → LimitKey → Option Tat
set_key keys k v j = if is_same_key j k then v else keys j

-- `GET`, or 0.
abbrev pub read_tat : ℕ → Option Tat → ℕ
read_tat at none = 0
read_tat at (some t) = if ltb at t.expires_at then t.value else 0

-- The script `bidAdmissionGCRAScript`, which runs at the time `at` of Redis.
unfoldable pub bid_admission_gcra : ℕ → ℕ → ℕ → ℕ → ℕ → Option Tat → ℕ × Option Tat
bid_admission_gcra at now emission burst ttl key =
    let tat = read_tat at key in
    let before = (burst - 1) * emission in
    if ltb (now + before) tat
    then (tat - before - now, key)
    else (0, some (record { value = max tat now + emission; expires_at = at + ttl }))

abbrev pub emission_ms : ℕ → ℕ → ℕ
emission_ms zero window = 1
emission_ms (suc n) window = if ltb 0 (window / suc n) then window / suc n else 1

-- `evalGCRALimit` where the script runs: the Retry-After in milliseconds, 0 for none.
unfoldable pub eval_gcra_limit : LimitKey → ℕ → ℕ → BidRequest → AdmissionDb → ℕ × AdmissionDb
unfolding bid_admission_gcra
eval_gcra_limit k limit window r db =
    let emission = emission_ms limit window in
    let (retry, v) =
      bid_admission_gcra r.redis_ms r.now_ms emission limit (window + emission * limit)
        (db.keys k) in
    (retry, record db { keys = set_key db.keys k v })

abbrev pub window_ms : AdmissionConfig → ℕ
window_ms cfg = (if ltb 0 cfg.bid_limit_window then cfg.bid_limit_window else 1000000000) / 1000000

-- The limit of a key, and the error of a request above it.
abbrev pub limit_of : AdmissionConfig → LimitKey → ℕ
limit_of cfg (bid_limit_user_key a u) = cfg.bid_user_limit
limit_of cfg (bid_limit_ip_key a p) = cfg.bid_ip_limit
limit_of cfg (bid_limit_auction_key a) = cfg.bid_auction_limit

abbrev pub error_of : LimitKey → ℕ → AdmissionError
error_of (bid_limit_auction_key a) = bid_auction_too_hot
error_of _ = rate_limited

abbrev pub checks : BidRequest → List LimitKey
checks r =
    bid_limit_user_key r.auction_id r.user_id
    ∷ bid_limit_ip_key r.auction_id r.ip
    ∷ bid_limit_auction_key r.auction_id
    ∷ []

-- How one check ends: the next one follows, the request goes through without a further check, or it is
-- rejected.
pub data Check : Type 0 where
  passed opened : Check
  refused : AdmissionError → Check

abbrev pub redis_down : AdmissionDb → AdmissionDb
redis_down db = record db { redis_downs = suc db.redis_downs }

abbrev pub checked : LimitKey → ℕ × AdmissionDb → Check × AdmissionDb
checked k (retry, db) =
    if ltb 0 retry
    then (refused (error_of k retry), record db { rejects = error_of k retry ∷ db.rejects })
    else (passed, db)

abbrev pub check_reach :
    AdmissionConfig → LimitKey → BidRequest → Reach → AdmissionDb → Check × AdmissionDb
check_reach cfg k r reached db = checked k (eval_gcra_limit k (limit_of cfg k) (window_ms cfg) r db)
check_reach cfg k r unanswered db =
    (opened, redis_down (eval_gcra_limit k (limit_of cfg k) (window_ms cfg) r db).1)
check_reach cfg k r unreached db = (opened, redis_down db)

-- A round of the loop of `checkRedisLimits`.
unfoldable pub check_one :
    AdmissionConfig → LimitKey → BidRequest → AdmissionDb → Check × AdmissionDb
unfolding eval_gcra_limit
check_one cfg k r db =
    if limit_of cfg k == 0 then (passed, db) else check_reach cfg k r (r.reach k) db

pub data Limited : Type 0 where
  within_limits : Limited
  limited : AdmissionError → Limited

abbrev pub next_check : Check → AdmissionDb → Limited × AdmissionDb → Limited × AdmissionDb
next_check passed db rest = rest
next_check opened db rest = (within_limits, db)
next_check (refused e) db rest = (limited e, db)

unfoldable pub check_each :
    AdmissionConfig → List LimitKey → BidRequest → AdmissionDb → Limited × AdmissionDb
unfolding check_one
check_each cfg [] r db = (within_limits, db)
check_each cfg (k ∷ ks) r db =
    let (c, db') = check_one cfg k r db in next_check c db' (check_each cfg ks r db')

unfoldable pub check_redis_limits :
    AdmissionConfig → BidRequest → AdmissionDb → Limited × AdmissionDb
unfolding check_each
check_redis_limits cfg r db =
    if not cfg.admission_enabled || not cfg.has_redis
    then (within_limits, db)
    else check_each cfg (checks r) r db
