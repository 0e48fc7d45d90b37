-- ===== src/Payment/Once.antt =====
-- An order of backend/internal/auction/bid.go is paid once or expires, over any run of payments, webhooks and
-- EXPIRE_ORDER jobs.
use live_auction.Common.{
  ℕ, suc, ◌≡◌, Bool, true, ◌||◌, Option, none, some, List, [], ◌∷◌, ◌==◌, if◌then◌else◌, arith,
}
use live_auction.Payment.{
  insert_payment_event, pay_order, pay_locked, handle_inserted, handle_provider_webhook,
  initiate_order, initiate_ready, initiate_payment,
}
use live_auction.Payment.Expiry.{process_expire_order}
use live_auction.Payment.Order.{
  OrderStatus, PayOrder, PaidEvent, PayDb, Webhook, is_paid, is_expired,
}

-- A call of the webhook, with its clock and whether its signature is valid, the initiation of a payment,
-- or a job that expires an order.
pub data PayOp : Type 0 where
  do_webhook : Bool → ℕ → Webhook → PayOp
  do_initiate : Bool → ℕ → ℕ → ℕ → ℕ → ℕ → PayOp
  do_expire : ℕ → ℕ → PayOp

unfoldable pub pay_step : PayOp → PayDb → PayDb
pay_step (do_webhook valid now w) db = (handle_provider_webhook (λ _. valid) now w db).1
pay_step (do_initiate ready now event new_id order user) db =
    (initiate_payment ready now event new_id order user db).1
pay_step (do_expire now order) db = (process_expire_order now order db).1

unfoldable pub run_payments : List PayOp → PayDb → PayDb
run_payments [] db = db
run_payments (o ∷ os) db = run_payments os (pay_step o db)

-- How many `order_paid` events an order has.
abbrev pub paid_count : ℕ → List PaidEvent → ℕ
paid_count order [] = 0
paid_count order (e ∷ es) =
    let rest = paid_count order es in if e.order_id == order then suc rest else rest

-- A paid order has exactly one event, its deposit is refunded and its time known; any other has none.
abbrev pub CountFits : ℕ → Option PayOrder → Type 0
CountFits n none = n ≡ 0
CountFits n (some o) = if is_paid o.status then n ≡ 1 else n ≡ 0

-- Every order has as many `order_paid` events as it has been paid.
abbrev pub PaidOnce : PayDb → Type 0
PaidOnce db = (j : ℕ) → CountFits (paid_count j db.paid_events) (db.orders j)

webhook-PaidOnce :
    (valid : Bool) (now : ℕ) (w : Webhook) (db : PayDb)
    → PaidOnce db
    → PaidOnce (handle_provider_webhook (λ _. valid) now w db).1
unfolding handle_provider_webhook insert_payment_event handle_inserted pay_locked pay_order
webhook-PaidOnce valid now w db v j = ground (arith, v j, v w.order_id)

initiate-PaidOnce :
    (ready : Bool) (now event new_id order user : ℕ) (db : PayDb)
    → PaidOnce db
    → PaidOnce (initiate_payment ready now event new_id order user db).1
unfolding initiate_payment initiate_ready insert_payment_event initiate_order
initiate-PaidOnce ready now event new_id order user db v j = ground (arith, v j, v order)

expire-PaidOnce :
    (now order : ℕ) (db : PayDb) → PaidOnce db → PaidOnce (process_expire_order now order db).1
unfolding process_expire_order
expire-PaidOnce now order db v j = ground (arith, v j, v order)

-- However often and in whatever order payments are initiated, webhooks delivered, valid or not, and
-- expiry jobs run, an
-- order that is paid has exactly one `order_paid` event, and any other order none.
pub run_payments-PaidOnce :
    (os : List PayOp) (db : PayDb) → PaidOnce db → PaidOnce (run_payments os db)
unfolding run_payments pay_step
run_payments-PaidOnce [] db v = v
run_payments-PaidOnce (do_webhook valid now w ∷ os) db v =
    run_payments-PaidOnce os (handle_provider_webhook (λ _. valid) now w db).1
      (webhook-PaidOnce valid now w db v)
run_payments-PaidOnce (do_initiate ready now event new_id order user ∷ os) db v =
    run_payments-PaidOnce os (initiate_payment ready now event new_id order user db).1
      (initiate-PaidOnce ready now event new_id order user db v)
run_payments-PaidOnce (do_expire now order ∷ os) db v =
    run_payments-PaidOnce os (process_expire_order now order db).1 (expire-PaidOnce now order db v)

-- The order is paid or expired.
abbrev pub is_final : OrderStatus → Bool
is_final s = is_paid s || is_expired s

webhook-final :
    (valid : Bool) (now : ℕ) (w : Webhook) (db : PayDb) (j : ℕ) (o : PayOrder)
    → db.orders j ≡ some o
    → is_final o.status ≡ true
    → (handle_provider_webhook (λ _. valid) now w db).1.orders j ≡ some o
unfolding handle_provider_webhook insert_payment_event handle_inserted pay_locked pay_order
webhook-final valid now w db j o e f = ground (arith, e, f)

initiate-final :
    (ready : Bool) (now event new_id order user : ℕ) (db : PayDb) (j : ℕ) (o : PayOrder)
    → db.orders j ≡ some o
    → is_final o.status ≡ true
    → (initiate_payment ready now event new_id order user db).1.orders j ≡ some o
unfolding initiate_payment initiate_ready insert_payment_event initiate_order
initiate-final ready now event new_id order user db j o e f = ground (arith, e, f)

expire-final :
    (now order : ℕ) (db : PayDb) (j : ℕ) (o : PayOrder)
    → db.orders j ≡ some o
    → is_final o.status ≡ true
    → (process_expire_order now order db).1.orders j ≡ some o
unfolding process_expire_order
expire-final now order db j o e f = ground (arith, e, f)

-- An order that is paid or expired stays as it is, with its time, provider id and deposit, over any run
-- of payments, webhooks and expiry jobs: a paid order is not paid again and never expires, and an
-- expired one is never paid.
pub run_payments-final :
    (os : List PayOp) (db : PayDb) (j : ℕ) (o : PayOrder)
    → db.orders j ≡ some o
    → is_final o.status ≡ true
    → (run_payments os db).orders j ≡ some o
unfolding run_payments pay_step
run_payments-final [] db j o e f = e
run_payments-final (do_webhook valid now w ∷ os) db j o e f =
    run_payments-final os (handle_provider_webhook (λ _. valid) now w db).1 j o
      (webhook-final valid now w db j o e f) f
run_payments-final (do_initiate ready now event new_id order user ∷ os) db j o e f =
    run_payments-final os (initiate_payment ready now event new_id order user db).1 j o
      (initiate-final ready now event new_id order user db j o e f) f
run_payments-final (do_expire now order ∷ os) db j o e f =
    run_payments-final os (process_expire_order now order db).1 j o
      (expire-final now order db j o e f) f
