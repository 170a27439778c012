-- ===== src/Lifecycle/Status.antt =====
-- How an order changes its status: confirmation of its payment, fulfilment, the administrator's change
-- and cancellation.
use fast_api_e_commerce.Prelude.{
  ℕ, Bool, true, false, not, ◌&&◌, none, some, List, [], ◌∷◌, Result, ok, err, ◌>>=◌, ◌>>◌,
  raise_if, ◌==◌, if◌then◌else◌, any, select, map,
}
use fast_api_e_commerce.Orders.Types.{Order, OrderStatus, paid, fulfilled, cancelled, same_status}
use fast_api_e_commerce.Lifecycle.Db.{
  Db, Error, invalid_transition, status_change_refused, cancellation_not_allowed,
  payment_in_progress, Payment, PaymentStatus, set_status, audit, payments_of,
  has_cancelling_refund, cancel_payment_succeeded, cancel_uncertain, order_paid, order_fulfilled,
  order_cancelled,
}
use fast_api_e_commerce.Lifecycle.Documents.{lock_order, reconcile, issue_invoice}
use fast_api_e_commerce.Lifecycle.Restock.{restock_once}

-- `mark_paid`, on a locked order: whether the order became paid, and the rows
unfoldable pub mark_paid : Order → Payment → Db → Bool × Db
unfolding set_status
mark_paid o p db = if not (same_status o.status OrderStatus.pending) then (false, db) else (
  true,
  audit order_paid o.id (set_status (record o { paid_in_demo_mode = p.provider_is_demo }) paid db),
)

-- `fulfil_order`
unfoldable pub fulfil_order : ℕ → Db → Result Error (Order × Db)
unfolding set_status issue_invoice
fulfil_order order_id db = do
  o ← lock_order order_id db
  if same_status o.status fulfilled then ok (o, db) else do
    raise_if (not (same_status o.status paid)) invalid_transition
    raise_if (has_cancelling_refund o.id db) status_change_refused
    let o' = record o { status = fulfilled }
    db' ← issue_invoice o' (set_status o fulfilled db)
    ok (o', audit order_fulfilled o.id db')

-- `admin_change_status`
unfoldable pub admin_change_status : ℕ → OrderStatus → Db → Result Error (Order × Db)
unfolding fulfil_order
admin_change_status order_id new_status db =
    if same_status new_status fulfilled then fulfil_order order_id db else err status_change_refused

-- What the provider of a payment answers to the cancellation of its intent: it cannot cancel, it
-- fails or times out, or it reports a status.
pub data Answer : Type 0 where
  unsupported_cancel unknown answer_succeeded answer_canceled answer_other : Answer

pub data CancelOutcome : Type 0 where
  outcome_cancelled outcome_already_cancelled outcome_uncertain : CancelOutcome
  outcome_payment_in_progress : CancelOutcome

abbrev pub is_succeeded : PaymentStatus → Bool
is_succeeded PaymentStatus.succeeded = true
is_succeeded _ = false

abbrev pub is_pending : PaymentStatus → Bool
is_pending PaymentStatus.pending = true
is_pending _ = false

abbrev pub is_refunded : PaymentStatus → Bool
is_refunded PaymentStatus.refunded = true
is_refunded _ = false

abbrev pub is_completed : Answer → Bool
is_completed answer_succeeded = true
is_completed _ = false

abbrev pub is_uncertain : Answer → Bool
is_uncertain unknown = true
is_uncertain answer_other = true
is_uncertain _ = false

-- phase 1: the payments whose intents are to be cancelled
unfoldable pub intents_to_cancel : Order → Db → Result Error (List Payment)
intents_to_cancel o db = do
  raise_if (not (same_status o.status OrderStatus.pending)) cancellation_not_allowed
  let payments = payments_of o.id db
  raise_if (any (λ p. is_succeeded p.status) payments) payment_in_progress
  ok (select (λ p. not (is_refunded p.status)) payments)

-- the pending payments of an order are failed: their intents are now cancelled
unfoldable pub fail_pending : ℕ → List Payment → List Payment
fail_pending order_id [] = []
fail_pending order_id (p ∷ ps) =
    (if p.order_id == order_id && is_pending p.status
      then record p { status = PaymentStatus.failed }
      else p)
    ∷ fail_pending order_id ps

-- `_release_stock_and_cancel`
unfoldable pub release_stock_and_cancel : Order → Db → Result Error (Order × Db)
unfolding set_status restock_once
release_stock_and_cancel o db = do
  r ← restock_once o db
  ok (record r.0 { status = cancelled }, set_status r.0 cancelled r.1)

-- phase 3, on the order and the rows as they now are
unfoldable pub finish_cancel : ℕ → Db → Result Error (CancelOutcome × Db)
unfolding fail_pending release_stock_and_cancel
finish_cancel order_id db = do
  o ← lock_order order_id db
  if same_status o.status cancelled
      then ok (outcome_already_cancelled, db)
      else if not (same_status o.status OrderStatus.pending)
      then ok (outcome_payment_in_progress, db)
      else if any (λ p. is_succeeded p.status) (payments_of o.id db)
      then ok (outcome_payment_in_progress, db)
      else do
        r ← release_stock_and_cancel o (record db { payments = fail_pending o.id db.payments })
        ok (outcome_cancelled, audit order_cancelled o.id r.1)

-- what follows the answers of the providers
unfoldable pub after_answers : ℕ → List Answer → Db → Result Error (CancelOutcome × Db)
unfolding finish_cancel reconcile
after_answers order_id answers db =
    if any is_completed answers
    then ok (
      outcome_payment_in_progress,
      reconcile cancel_payment_succeeded order_id none (some order_id) db,
    )
    else if any is_uncertain answers
    then ok (outcome_uncertain, reconcile cancel_uncertain order_id none (some order_id) db)
    else finish_cancel order_id db

-- `cancel_order`: `answer` is what each intent's provider says, and `meanwhile` is what other
-- transactions commit while no row is locked. It returns the outcome or the error, and the rows then
-- committed: where phase 3 raises, what it wrote is rolled back.
unfoldable pub cancel_order :
    (Payment → Answer) → (Db → Db) → ℕ → Db → Result Error CancelOutcome × Db
unfolding intents_to_cancel after_answers
cancel_order answer meanwhile order_id db = elim (lock_order order_id db) [
  | err e ↦ (err e, db)
  | ok o ↦
      if same_status o.status cancelled
      then (ok outcome_already_cancelled, db)
      else elim (intents_to_cancel o db) [
        | err e ↦ (err e, db)
        | ok intents ↦ elim (after_answers order_id (map answer intents) (meanwhile db)) [
          | err e ↦ (err e, meanwhile db)
          | ok r ↦ (ok r.0, r.1)
        ]
      ]
]
