-- ===== src/Lifecycle/Histories.antt =====
-- The status history over a run.
use fast_api_e_commerce.Prelude.{ℕ, Bool, Option, List, ok, ◌≡◌, sym, arith}
use fast_api_e_commerce.Orders.Types.{Order, OrderStatus, Text}
use fast_api_e_commerce.Lifecycle.Db.{Db, Payment, Refund}
use fast_api_e_commerce.Lifecycle.Status.{admin_change_status}
use fast_api_e_commerce.Lifecycle.Refunds.{
  request_refund, begin_refund_attempt, record_refund_attempt_failed, RefundAttempt,
}
use fast_api_e_commerce.Lifecycle.Reports.{Reported, finish_refund, record_external_refund}
use fast_api_e_commerce.Lifecycle.Disputes.{
  DisputeEvent, apply_dispute_event, resolve_reconciliation, refund_from_reconciliation,
}
use fast_api_e_commerce.Lifecycle.Transitions.{
  HistoryAllowed, fulfil_order-HistoryAllowed, mark_paid-HistoryAllowed,
  cancel_order-HistoryAllowed, apply_refund_state-HistoryAllowed, reconcile-history,
}
use fast_api_e_commerce.Lifecycle.Run.{
  Run, done, then_mark_paid, then_admin_change_status, then_cancel_order, then_request_refund,
  then_begin_refund_attempt, then_attempt_failed, then_finish_refund, then_external_refund,
  then_dispute_event, then_resolve, then_refund_from_reconciliation,
}

request_refund-history :
    (id : ℕ) (payment_id : Option ℕ) (cancels_order created : Bool) (r : Refund) (b c : Db)
    → request_refund id payment_id cancels_order b ≡ ok ((r, created), c)
    → c.history ≡ b.history
unfolding request_refund
request_refund-history id payment_id cancels_order created r b c e = ground arith

begin_refund_attempt-history :
    (id : ℕ) (attempt : Option RefundAttempt) (b c : Db)
    → begin_refund_attempt id b ≡ ok (attempt, c)
    → c.history ≡ b.history
unfolding begin_refund_attempt
begin_refund_attempt-history id attempt b c e = ground arith

attempt_failed-history :
    (max_attempts id : ℕ) (b : Db)
    → (record_refund_attempt_failed max_attempts id b).1.history ≡ b.history
unfolding record_refund_attempt_failed
attempt_failed-history max_attempts id b = grind (arith, reconcile-history)

external_refund-history :
    (p : Payment) (reference : ℕ) (amount : Option ℕ) (currency : Option Text) (b : Db)
    → (record_external_refund p reference amount currency b).1.history ≡ b.history
unfolding record_external_refund
external_refund-history p reference amount currency b = grind (arith, reconcile-history)

dispute_event-history : (e : DisputeEvent) (b : Db) → (apply_dispute_event e b).history ≡ b.history
unfolding apply_dispute_event
dispute_event-history e b = ground arith

resolve-history : (id : ℕ) (b c : Db) → resolve_reconciliation id b ≡ ok c → c.history ≡ b.history
unfolding resolve_reconciliation
resolve-history id b c e = ground arith

refund_from_reconciliation-history :
    (id : ℕ) (r : Refund) (b c : Db)
    → refund_from_reconciliation id b ≡ ok (r, c)
    → c.history ≡ b.history
unfolding refund_from_reconciliation
refund_from_reconciliation-history id r b c e = grind (arith, request_refund-history)

admin_change_status-HistoryAllowed :
    (id : ℕ) (status : OrderStatus) (o : Order) (b c : Db)
    → admin_change_status id status b ≡ ok (o, c)
    → HistoryAllowed b.history
    → HistoryAllowed c.history
unfolding admin_change_status
admin_change_status-HistoryAllowed id status o b c e h = grind (arith, fulfil_order-HistoryAllowed)

finish_refund-HistoryAllowed :
    (id : ℕ) (reported : Reported) (amount : Option ℕ) (currency : Option Text)
    (reference : Option ℕ) (b c : Db)
    → finish_refund id reported amount currency reference b ≡ ok c
    → HistoryAllowed b.history
    → HistoryAllowed c.history
unfolding finish_refund
finish_refund-HistoryAllowed id reported amount currency reference b c e h =
    grind (arith, apply_refund_state-HistoryAllowed)

-- rows of the same history, and of a history that is equal to that of the result of a call
same_history :
    {h k : List (ℕ × OrderStatus × OrderStatus)} → k ≡ h → HistoryAllowed h → HistoryAllowed k
same_history e h = rw e h

returned :
    {A : Type 0} {r : A} {c : Db} {q : A × Db}
    → q ≡ (r, c)
    → HistoryAllowed q.1.history
    → HistoryAllowed c.history
returned e h = ground arith

-- After any run of the lifecycle from rows whose status history holds nothing but the rows of new
-- orders, from pending to pending, and allowed transitions, the history still holds nothing else,
-- whatever the providers answer and whichever run of the lifecycle happens between the two
-- transactions of a cancellation.
pub Run-HistoryAllowed : {a c : Db} → Run a c → HistoryAllowed a.history → HistoryAllowed c.history
Run-HistoryAllowed done h = h
Run-HistoryAllowed (then_mark_paid {b = b} o p r e) h =
    returned e (mark_paid-HistoryAllowed o p b (Run-HistoryAllowed r h))
Run-HistoryAllowed (then_admin_change_status {b = b} {c = c} id status o r e) h =
    admin_change_status-HistoryAllowed id status o b c e (Run-HistoryAllowed r h)
Run-HistoryAllowed (then_cancel_order {b = b} answer meanwhile id r m e) h =
    let h' = Run-HistoryAllowed r h in
    returned e (cancel_order-HistoryAllowed answer meanwhile id b h' (Run-HistoryAllowed m h'))
Run-HistoryAllowed (then_request_refund {b = b} {c = c} id payment_id cancels_order s created r e)
      h =
    same_history (request_refund-history id payment_id cancels_order created s b c e)
      (Run-HistoryAllowed r h)
Run-HistoryAllowed (then_begin_refund_attempt {b = b} {c = c} id attempt r e) h =
    same_history (begin_refund_attempt-history id attempt b c e) (Run-HistoryAllowed r h)
Run-HistoryAllowed (then_attempt_failed {b = b} max_attempts id r e) h =
    returned e (same_history (attempt_failed-history max_attempts id b) (Run-HistoryAllowed r h))
Run-HistoryAllowed (then_finish_refund {b = b} {c = c} id reported amount currency reference r e)
      h =
    finish_refund-HistoryAllowed id reported amount currency reference b c e
      (Run-HistoryAllowed r h)
Run-HistoryAllowed (then_external_refund {b = b} p reference amount currency r e) h =
    returned e (
      same_history (external_refund-history p reference amount currency b) (Run-HistoryAllowed r h))
Run-HistoryAllowed (then_dispute_event {b = b} f r e) h =
    same_history (rw (sym e) (dispute_event-history f b)) (Run-HistoryAllowed r h)
Run-HistoryAllowed (then_resolve {b = b} {c = c} id r e) h =
    same_history (resolve-history id b c e) (Run-HistoryAllowed r h)
Run-HistoryAllowed (then_refund_from_reconciliation {b = b} {c = c} id s r e) h =
    same_history (refund_from_reconciliation-history id s b c e) (Run-HistoryAllowed r h)
