-- ===== src/Payment/Expiry.antt =====
-- The expiry of an order, processExpireOrder of backend/internal/scheduler/scheduler.go.
use live_auction.Common.{ℕ, Bool, true, false, not, none, some, ◌∷◌, ltb, update, if◌then◌else◌}
use live_auction.Payment.Order.{
  OrderStatus, order_pending, payment_initiated, order_expired, forfeited, PayOrder, PayDb,
}

-- What becomes of the EXPIRE_ORDER job: it fails, has succeeded, or runs again at a time.
pub data ExpireEnd : Type 0 where
  no_order job_done : ExpireEnd
  job_again : ℕ → ExpireEnd

abbrev pub can_expire : OrderStatus → Bool
can_expire order_pending = true
can_expire payment_initiated = true
can_expire _ = false

abbrev pub expired_order : PayOrder → PayOrder
expired_order o = record o { status = order_expired; deposit_status = forfeited }

unfoldable pub process_expire_order : ℕ → ℕ → PayDb → ExpireEnd × PayDb
process_expire_order now order db = elim (db.orders order) [
  | none ↦ (no_order, db)
  | some o ↦
      if not (can_expire o.status)
      then (job_done, db)
      else if ltb now o.expire_at
      then (job_again o.expire_at, db)
      else (
        job_done,
        record db {
          orders = update db.orders order (some (expired_order o));
          expired_events =
              record { order_id = order; user_id = o.winner_id; expired_at = now }
              ∷ db.expired_events;
        },
      )
]
