-- ===== src/Payment.antt =====
-- The payment of an order, backend/internal/auction/bid.go: the webhook of the provider,
-- `HandleProviderWebhook`, and the transaction with which `PayMockWithSecret` initiates a payment.
pub mod Order
pub mod Expiry
pub mod Once
pub mod Kind
mod Tests
use live_auction.Common.{
  ℕ, Bool, true, false, ◌&&◌, ◌||◌, not, Option, none, some, List, [], ◌∷◌, ◌==◌, or_default,
  is_none, is_some, update, if◌then◌else◌,
}
use live_auction.Payment.Order.{
  OrderStatus, order_paid, order_expired, payment_initiated, DepositStatus, refunded, PayOrder,
  EventKind, kind_payment_initiated, kind_other, PaymentEvent, PaidEvent, Anomaly,
  invalid_signature, reconcile_mismatch, PayDb, Webhook, PaymentResponse, PayError,
  invalid_argument, invalid_provider_signature, order_not_found, provider_mismatch, already_expired,
  forbidden_payer, convergence_not_ready, event_kind_refused, database_error, is_paid, is_expired,
}

pub data Paid : Type 0 where
  paid : PaymentResponse → Paid
  unpaid : PayError → Paid

-- `ON CONFLICT (provider, provider_event_id) DO NOTHING`.
abbrev pub has_event : ℕ → ℕ → List PaymentEvent → Bool
has_event provider id [] = false
has_event provider id (e ∷ es) =
    (e.provider == provider && e.provider_event_id == id) || has_event provider id es

-- The foreign key refuses a new event of an order that is not there.
unfoldable pub insert_payment_event : PaymentEvent → PayDb → Option PayDb
insert_payment_event e db =
    if has_event e.provider e.provider_event_id db.payment_events
    then some db
    else if is_none (db.orders e.order_id)
    then none
    else some (record db { payment_events = e ∷ db.payment_events })

-- The order that the unique index already has under a payment id is another one.
abbrev pub is_used_elsewhere : ℕ → ℕ → PayDb → Bool
is_used_elsewhere payment order db = elim (db.payment_ids payment) [
  | none ↦ false
  | some other ↦ not (other == order)
]

abbrev pub record_anomaly : Anomaly → ℕ → PayDb → PayDb
record_anomaly a order db = record db { anomalies = (a, order) ∷ db.anomalies }

abbrev pub is_other_kind : EventKind → Bool
is_other_kind kind_other = true
is_other_kind _ = false

-- The UPDATE of an order that is not paid yet.
unfoldable pub pay_order : ℕ → ℕ → PayOrder → PayOrder
pay_order now provider_payment o = record o {
  status = order_paid;
  deposit_status = refunded;
  paid_at = some (or_default o.paid_at now);
  payment_succeeded_at = some (or_default o.payment_succeeded_at now);
  provider_payment_id = some (or_default o.provider_payment_id provider_payment);
}

abbrev pub paid_event : ℕ → Webhook → PayOrder → PaidEvent
paid_event now w o = record {
  order_id = w.order_id;
  user_id = o.winner_id;
  amount_cents = o.amount_cents;
  provider_payment_id = w.provider_payment_id;
  paid_at = or_default o.paid_at now;
}

-- The order that the webhook names, under its lock. `before` is what a rollback leaves.
unfoldable pub pay_locked : ℕ → Webhook → PayOrder → PayDb → PayDb → Paid × PayDb
unfolding pay_order
pay_locked now w o before db =
    if not (or_default o.provider_payment_id w.provider_payment_id == w.provider_payment_id)
    then (unpaid provider_mismatch, before)
    else if is_expired o.status
    then (unpaid already_expired, record_anomaly reconcile_mismatch w.order_id db)
    else if not (is_paid o.status) && is_used_elsewhere w.provider_payment_id w.order_id db
    then (unpaid database_error, before)
    else (
      paid (record {
        order_id = w.order_id;
        order_status = order_paid;
        paid_at = or_default o.paid_at now;
        deposit_status = refunded;
        provider_payment_id = w.provider_payment_id;
      }),
      if is_paid o.status then db else record db {
        orders = update db.orders w.order_id (some (pay_order now w.provider_payment_id o));
        payment_ids = update db.payment_ids w.provider_payment_id (some w.order_id);
        paid_events = paid_event now w o ∷ db.paid_events;
      },
    )

-- The rest of the transaction, after the event is inserted.
unfoldable pub handle_inserted : Bool → ℕ → Webhook → PayDb → PayDb → Paid × PayDb
unfolding pay_locked
handle_inserted signature_valid now w before db =
    if not signature_valid
    then (unpaid invalid_provider_signature, record_anomaly invalid_signature w.order_id db)
    else elim (db.orders w.order_id) [
      | none ↦ (unpaid order_not_found, before)
      | some o ↦ pay_locked now w o before db
    ]

-- `HandleProviderWebhook`. `verify` is `VerifyProviderWebhook`, an HMAC over the first four fields; the
-- table's CHECK refuses an event type that it does not know.
unfoldable pub handle_provider_webhook : (Webhook → Bool) → ℕ → Webhook → PayDb → Paid × PayDb
unfolding insert_payment_event handle_inserted
handle_provider_webhook verify now w db =
    if w.lacks_field
    then (unpaid invalid_argument, db)
    else if is_other_kind w.event_type
    then (unpaid event_kind_refused, db)
    else elim (insert_payment_event
        (record {
          provider = or_default w.provider 0;
          provider_event_id = w.provider_event_id;
          provider_payment_id = w.provider_payment_id;
          order_id = w.order_id;
          event_type = w.event_type;
          signature_valid = verify w;
        })
        db) [
          | none ↦ (unpaid database_error, db)
          | some inserted ↦ handle_inserted (verify w) now w db inserted
        ]

-- The UPDATE that initiates a payment.
unfoldable pub initiate_order : ℕ → ℕ → PayOrder → PayOrder
initiate_order now payment o = if is_paid o.status then o else record o {
  status = payment_initiated;
  provider_payment_id = some payment;
  payment_initiated_at = some (or_default o.payment_initiated_at now);
}

-- The statements that initiate a payment, with their refusals by the database.
unfoldable pub initiate_ready : ℕ → ℕ → ℕ → ℕ → PayOrder → PayDb → (Option PayError × ℕ) × PayDb
unfolding initiate_order insert_payment_event
initiate_ready now event payment order o db =
    if not (is_paid o.status) && is_used_elsewhere payment order db
    then ((some database_error, 0), db)
    else elim (insert_payment_event
        (record {
          provider = 0;
          provider_event_id = event;
          provider_payment_id = payment;
          order_id = order;
          event_type = kind_payment_initiated;
          signature_valid = true;
        })
        (record db {
          orders = update db.orders order (some (initiate_order now payment o));
          payment_ids =
              if is_paid o.status
              then db.payment_ids
              else update db.payment_ids payment (some order);
        })) [ none ↦ ((some database_error, 0), db) | some inserted ↦ ((none, payment), inserted) ]

-- The first transaction of `PayMockWithSecret` for a request that no idempotency record answers: the
-- payment id, or an error. `ready` is `ensurePaymentConvergenceReady`, `event` and `new_id` the ids of the
-- event and of a new payment.
unfoldable pub initiate_payment : Bool → ℕ → ℕ → ℕ → ℕ → ℕ → PayDb → (Option PayError × ℕ) × PayDb
unfolding initiate_ready
initiate_payment ready now event new_id order user db = elim (db.orders order) [
  | none ↦ ((some order_not_found, 0), db)
  | some o ↦
      if not (o.winner_id == user)
      then ((some forbidden_payer, 0), db)
      else if is_expired o.status
      then ((some already_expired, 0), db)
      else if not (is_paid o.status) && is_none o.provider_payment_id && not ready
      then ((some convergence_not_ready, 0), db)
      else initiate_ready now event (or_default o.provider_payment_id new_id) order o db
]
