-- ===== src/Payment/Tests.antt =====
-- The payments of backend/internal/auction/bid.go at one order.
use live_auction.Common.{◌≡◌, refl, true, false, none, some, List, [], ◌∷◌}
use live_auction.Payment.{
  pay_order, insert_payment_event, pay_locked, handle_inserted, handle_provider_webhook,
  initiate_order, initiate_ready, initiate_payment,
}
use live_auction.Payment.Order.{
  order_pending, order_paid, refunded, order_expired, payment_initiated, held, forfeited,
  kind_payment_succeeded, kind_payment_failed, PayOrder, PayDb, Webhook,
}
use live_auction.Payment.Expiry.{process_expire_order}
use live_auction.Payment.Once.{
  PayOp, do_webhook, do_initiate, do_expire, pay_step, run_payments, PaidOnce, paid_count,
  run_payments-PaidOnce, run_payments-final,
}
use live_auction.Payment.Kind.{handle_provider_webhook-failed}

abbrev an_order : PayOrder
an_order = record {
  auction_id = 1;
  winner_id = 7;
  amount_cents = 9000;
  status = order_pending;
  deposit_status = held;
  paid_at = none;
  payment_initiated_at = none;
  payment_succeeded_at = none;
  provider_payment_id = none;
  expire_at = 5000;
}

abbrev one_order : PayDb
one_order = record {
  orders = λ _. some an_order;
  payment_ids = λ _. none;
  payment_events = [];
  paid_events = [];
  expired_events = [];
  anomalies = [];
}

abbrev success : Webhook
success = record {
  lacks_field = false;
  provider = none;
  provider_event_id = 2;
  provider_payment_id = 50;
  order_id = 3;
  event_type = kind_payment_succeeded;
  signature = 0;
}

-- The payment is initiated, its success delivered twice, and the job of the order runs late.
abbrev payments : List PayOp
payments =
    do_initiate true 100 1 50 3 7
    ∷ do_webhook true 110 success
    ∷ do_webhook true 120 success
    ∷ do_expire 6000 3
    ∷ []

payments_count : paid_count 3 (run_payments payments one_order).paid_events ≡ 1
unfolding run_payments pay_step handle_provider_webhook insert_payment_event handle_inserted
    pay_locked pay_order initiate_payment initiate_ready initiate_order process_expire_order
payments_count = refl

run_payments-PaidOnce_example : PaidOnce (run_payments payments one_order)
run_payments-PaidOnce_example = run_payments-PaidOnce payments one_order (λ j. refl)

-- Without a payment the order expires, and a success that comes later is refused.
abbrev too_late : List PayOp
too_late = do_expire 4000 3 ∷ do_expire 5000 3 ∷ do_webhook true 5010 success ∷ []

expires_unpaid :
    (paid_count 3 (run_payments too_late one_order).paid_events ≡ 0)
    × ((run_payments too_late one_order).expired_events
        ≡ record { order_id = 3; user_id = 7; expired_at = 5000 } ∷ [])
unfolding run_payments pay_step handle_provider_webhook insert_payment_event handle_inserted
    pay_locked process_expire_order
expires_unpaid = (refl, refl)

abbrev an_expired_order : PayOrder
an_expired_order = record an_order { status = order_expired; deposit_status = forfeited }

abbrev expired_db : PayDb
expired_db = record one_order { orders = λ _. some an_expired_order }

run_payments-final_example : (run_payments payments expired_db).orders 3 ≡ some an_expired_order
run_payments-final_example = run_payments-final payments expired_db 3 an_expired_order refl refl

abbrev waiting_order : PayOrder
waiting_order = record an_order { status = payment_initiated; provider_payment_id = some 50 }

abbrev waiting_db : PayDb
waiting_db = record one_order { orders = λ _. some waiting_order; payment_ids = λ _. some 3 }

abbrev failure : Webhook
failure = record success { event_type = kind_payment_failed }

handle_provider_webhook-failed_example :
    (o' : PayOrder) × ((handle_provider_webhook (λ _. true) 110 failure waiting_db).1.orders 3
      ≡ some o')
    × (o'.status ≡ order_paid)
    × (o'.deposit_status ≡ refunded)
    × ((handle_provider_webhook (λ _. true) 110 failure waiting_db).1.paid_events
        ≡ record {
          order_id = 3;
          user_id = 7;
          amount_cents = 9000;
          provider_payment_id = 50;
          paid_at = 110;
        }
          ∷ [])
handle_provider_webhook-failed_example =
    handle_provider_webhook-failed (λ _. true) 110 failure waiting_db waiting_order refl refl refl
      refl refl refl refl refl
