-- ===== src/Payment/Order.antt =====
-- The rows and messages of a payment, backend/internal/auction/bid.go.
use live_auction.Common.{ℕ, Bool, true, false, Option, List}

pub data OrderStatus : Type 0 where
  order_pending payment_initiated payment_succeeded order_paid order_expired : OrderStatus

pub data DepositStatus : Type 0 where
  held refunded forfeited : DepositStatus

-- The row of an order; `expire_at` is read by the scheduler.
pub record PayOrder : Type 0 where
  pub auction_id : ℕ
  pub winner_id : ℕ
  pub amount_cents : ℕ
  pub status : OrderStatus
  pub deposit_status : DepositStatus
  pub paid_at : Option ℕ
  pub payment_initiated_at : Option ℕ
  pub payment_succeeded_at : Option ℕ
  pub provider_payment_id : Option ℕ
  pub expire_at : ℕ

-- The event types that the table takes, and any other text.
pub data EventKind : Type 0 where
  kind_payment_initiated kind_payment_succeeded kind_payment_failed kind_other : EventKind

-- A row of `payment_events`; provider 0 is `local_fake`.
pub record PaymentEvent : Type 0 where
  pub provider : ℕ
  pub provider_event_id : ℕ
  pub provider_payment_id : ℕ
  pub order_id : ℕ
  pub event_type : EventKind
  pub signature_valid : Bool

-- The payload of the event `order_paid` of an auction.
pub record PaidEvent : Type 0 where
  pub order_id : ℕ
  pub user_id : ℕ
  pub amount_cents : ℕ
  pub provider_payment_id : ℕ
  pub paid_at : ℕ

-- The payload of the event `order_expired` of an auction; the deposit is forfeited.
pub record ExpiredEvent : Type 0 where
  pub order_id : ℕ
  pub user_id : ℕ
  pub expired_at : ℕ

pub data Anomaly : Type 0 where
  invalid_signature reconcile_mismatch : Anomaly

-- `payment_ids` is the unique index `ux_orders_provider_payment_id`: the order that has a payment id.
pub record PayDb : Type 0 where
  pub orders : ℕ → Option PayOrder
  pub payment_ids : ℕ → Option ℕ
  pub payment_events : List PaymentEvent
  pub paid_events : List PaidEvent
  pub expired_events : List ExpiredEvent
  pub anomalies : List (Anomaly × ℕ)

-- `ProviderPaymentWebhook`; `lacks_field` says that a required text is empty, and the others then do not
-- matter.
pub record Webhook : Type 0 where
  pub lacks_field : Bool
  pub provider : Option ℕ
  pub provider_event_id : ℕ
  pub provider_payment_id : ℕ
  pub order_id : ℕ
  pub event_type : EventKind
  pub signature : ℕ

pub record PaymentResponse : Type 0 where
  pub order_id : ℕ
  pub order_status : OrderStatus
  pub paid_at : ℕ
  pub deposit_status : DepositStatus
  pub provider_payment_id : ℕ

pub data PayError : Type 0 where
  invalid_argument invalid_provider_signature order_not_found provider_mismatch : PayError
  already_expired forbidden_payer convergence_not_ready event_kind_refused database_error : PayError

abbrev pub is_paid : OrderStatus → Bool
is_paid order_paid = true
is_paid _ = false

abbrev pub is_expired : OrderStatus → Bool
is_expired order_expired = true
is_expired _ = false
