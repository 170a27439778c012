-- ===== src/Lifecycle/Guards.antt =====
-- The row triggers of the database: app/modules/payments/models/lifecycle_guard.py and
-- provider_guard.py. A guard is true where the trigger lets the new row stand. The time of the stock's
-- release is a flag here, so of that check only its undoing is modelled.
use fast_api_e_commerce.Prelude.{Bool, true, false, not, ◌&&◌, ◌||◌, ◌==◌, any}
use fast_api_e_commerce.Orders.Types.{
  Order, OrderStatus, same_status, allowed_transition, same_text,
}
use fast_api_e_commerce.Lifecycle.Db.{Db, Refund, RefundStatus, Dispute, is_open}
use fast_api_e_commerce.Lifecycle.Status.{is_succeeded}
use fast_api_e_commerce.Lifecycle.Reports.{is_final}
use fast_api_e_commerce.Lifecycle.Disputes.{same_dispute_status}

abbrev pub same_refund_status : RefundStatus → RefundStatus → Bool
same_refund_status RefundStatus.requested RefundStatus.requested = true
same_refund_status RefundStatus.pending RefundStatus.pending = true
same_refund_status RefundStatus.succeeded RefundStatus.succeeded = true
same_refund_status RefundStatus.failed RefundStatus.failed = true
same_refund_status RefundStatus.uncertain RefundStatus.uncertain = true
same_refund_status _ _ = false

-- what a status needs of the other rows
abbrev pub status_backed : Order → Db → Bool
status_backed new db = elim new.status [
  | OrderStatus.paid ↦ any (λ p. p.order_id == new.id && is_succeeded p.status) db.payments
  | OrderStatus.refunded ↦
      any (λ r. r.order_id == new.id && same_refund_status r.status RefundStatus.succeeded)
        db.refunds
  | OrderStatus.cancelled ↦ new.stock_released
  | _ ↦ true
]

-- `orders_lifecycle_guard`
unfoldable pub orders_lifecycle_guard : Order → Order → Db → Bool
orders_lifecycle_guard old new db =
    not (old.stock_released && not new.stock_released)
    && (same_status new.status old.status
        || (allowed_transition old.status new.status && status_backed new db))

-- `refunds_guard`
unfoldable pub refunds_guard : Refund → Refund → Bool
refunds_guard old new =
    new.payment_id == old.payment_id
    && new.order_id == old.order_id
    && new.amount_cents == old.amount_cents
    && same_text new.currency old.currency
    && new.attempt_number == old.attempt_number
    && (not (is_final old.status) || same_refund_status new.status old.status)

-- `disputes_guard`
unfoldable pub disputes_guard : Dispute → Dispute → Bool
disputes_guard old new =
    new.payment_id == old.payment_id
    && new.amount_cents == old.amount_cents
    && same_text new.currency old.currency
    && new.provider == old.provider
    && new.provider_dispute_id == old.provider_dispute_id
    && (is_open old.status || same_dispute_status new.status old.status)
