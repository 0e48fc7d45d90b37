-- ===== src/Payment/Kind.antt =====
-- The event type of a webhook in backend/internal/auction/bid.go.
use live_auction.Common.{ℕ, ◌≡◌, refl, Bool, true, false, some, ◌∷◌, or_default, arith}
use live_auction.Payment.{
  insert_payment_event, pay_order, pay_locked, handle_inserted, handle_provider_webhook,
}
use live_auction.Payment.Order.{
  is_paid, order_paid, refunded, PayOrder, kind_payment_failed, PayDb, Webhook, is_expired,
}

-- A complete and signed webhook whose event says that the payment failed, for an order that has this
-- payment id and is neither paid nor expired, makes the order PAID, refunds its deposit and publishes
-- `order_paid` with its amount.
pub handle_provider_webhook-failed :
    (verify : Webhook → Bool) (now : ℕ) (w : Webhook) (db : PayDb) (o : PayOrder)
    → w.event_type ≡ kind_payment_failed
    → w.lacks_field ≡ false
    → verify w ≡ true
    → db.orders w.order_id ≡ some o
    → o.provider_payment_id ≡ some w.provider_payment_id
    → is_expired o.status ≡ false
    → is_paid o.status ≡ false
    → db.payment_ids w.provider_payment_id ≡ some w.order_id
    → (o' : PayOrder) × ((handle_provider_webhook verify now w db).1.orders w.order_id ≡ some o')
      × (o'.status ≡ order_paid)
      × (o'.deposit_status ≡ refunded)
      × ((handle_provider_webhook verify now w db).1.paid_events
          ≡ record {
            order_id = w.order_id;
            user_id = o.winner_id;
            amount_cents = o.amount_cents;
            provider_payment_id = w.provider_payment_id;
            paid_at = or_default o.paid_at now;
          }
            ∷ db.paid_events)
unfolding handle_provider_webhook insert_payment_event handle_inserted pay_locked pay_order
handle_provider_webhook-failed verify now w db o k l s e p x n i = (
  pay_order now w.provider_payment_id o,
  ground (arith, k, l, s, e, p, x, n, i),
  refl,
  refl,
  ground (arith, k, l, s, e, p, x, n, i),
)
