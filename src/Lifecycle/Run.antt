-- ===== src/Lifecycle/Run.antt =====
-- Runs of the lifecycle: any transactions of the service, in any order. What other transactions do
-- while `cancel_order` asks the providers is itself a run.
use fast_api_e_commerce.Prelude.{ℕ, Bool, Option, Result, ok, ◌≡◌}
use fast_api_e_commerce.Orders.Types.{Order, OrderStatus, Text}
use fast_api_e_commerce.Lifecycle.Db.{Db, Error, Payment, Refund}
use fast_api_e_commerce.Lifecycle.Status.{
  mark_paid, admin_change_status, cancel_order, Answer, CancelOutcome,
}
use fast_api_e_commerce.Lifecycle.Refunds.{
  request_refund, begin_refund_attempt, record_refund_attempt_failed, RefundAttempt, AttemptFailed,
}
use fast_api_e_commerce.Lifecycle.Reports.{Reported, finish_refund, record_external_refund}
use fast_api_e_commerce.Lifecycle.Disputes.{
  DisputeEvent, apply_dispute_event, resolve_reconciliation, refund_from_reconciliation,
}

pub data Run : Db → Db → Type 0 where
  done : {a : Db} → Run a a
  then_mark_paid :
      {a b c : Db} {r : Bool} (o : Order) (p : Payment)
      → Run a b
      → mark_paid o p b ≡ (r, c)
      → Run a c
  then_admin_change_status :
      {a b c : Db} (id : ℕ) (status : OrderStatus) (o : Order)
      → Run a b
      → admin_change_status id status b ≡ ok (o, c)
      → Run a c
  then_cancel_order :
      {a b c : Db} {r : Result Error CancelOutcome} (answer : Payment → Answer)
      (meanwhile : Db → Db) (id : ℕ)
      → Run a b
      → Run b (meanwhile b)
      → cancel_order answer meanwhile id b ≡ (r, c)
      → Run a c
  then_request_refund :
      {a b c : Db} (id : ℕ) (payment_id : Option ℕ) (cancels_order : Bool) (r : Refund)
      (created : Bool)
      → Run a b
      → request_refund id payment_id cancels_order b ≡ ok ((r, created), c)
      → Run a c
  then_begin_refund_attempt :
      {a b c : Db} (id : ℕ) (attempt : Option RefundAttempt)
      → Run a b
      → begin_refund_attempt id b ≡ ok (attempt, c)
      → Run a c
  then_attempt_failed :
      {a b c : Db} {r : AttemptFailed} (max_attempts id : ℕ)
      → Run a b
      → record_refund_attempt_failed max_attempts id b ≡ (r, c)
      → Run a c
  then_finish_refund :
      {a b c : Db} (id : ℕ) (reported : Reported) (amount : Option ℕ) (currency : Option Text)
      (reference : Option ℕ)
      → Run a b
      → finish_refund id reported amount currency reference b ≡ ok c
      → Run a c
  then_external_refund :
      {a b c : Db} {r : Bool} (p : Payment) (reference : ℕ) (amount : Option ℕ)
      (currency : Option Text)
      → Run a b
      → record_external_refund p reference amount currency b ≡ (r, c)
      → Run a c
  then_dispute_event :
      {a b c : Db} (e : DisputeEvent) → Run a b → apply_dispute_event e b ≡ c → Run a c
  then_resolve : {a b c : Db} (id : ℕ) → Run a b → resolve_reconciliation id b ≡ ok c → Run a c
  then_refund_from_reconciliation :
      {a b c : Db} (id : ℕ) (r : Refund)
      → Run a b
      → refund_from_reconciliation id b ≡ ok (r, c)
      → Run a c
