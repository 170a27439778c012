-- ===== src/Lifecycle/Transitions.antt =====
-- Changes of an order's status, operation by operation, against `ALLOWED_TRANSITIONS`.
use fast_api_e_commerce.Prelude.{
  ℕ, Bool, true, false, Option, List, [], ◌∷◌, Result, ok, ◌≡◌, arith, if◌then◌else◌, ◌||◌, ◌&&◌,
}
use fast_api_e_commerce.Orders.Types.{
  Order, OrderStatus, allowed_transition, same_status, Text, paid, fulfilled,
}
use fast_api_e_commerce.Lifecycle.Db.{Db, Error, KeyKind, Payment, Refund}
use fast_api_e_commerce.Lifecycle.Documents.{reconcile, issue_invoice, issue_credit_note}
use fast_api_e_commerce.Lifecycle.Restock.{restock_once}
use fast_api_e_commerce.Lifecycle.Status.{mark_paid, fulfil_order, cancel_order, Answer}
use fast_api_e_commerce.Lifecycle.Reports.{
  Reported, reported_succeeded, reported_failed, reported_canceled, reported_other, apply_report,
  apply_refund_state, confirm_refund, refund_order, note_mismatch, is_final,
}

-- a row of the history: that of an order that is created, or of a change that is allowed
abbrev pub is_recordable : OrderStatus → OrderStatus → Bool
is_recordable a b =
    (same_status a OrderStatus.pending && same_status b OrderStatus.pending)
    || allowed_transition a b

-- every row of the status history is one of these
unfoldable pub HistoryAllowed : List (ℕ × OrderStatus × OrderStatus) → Type 0
HistoryAllowed [] = Unit
HistoryAllowed (h ∷ hs) = (is_recordable h.1 h.2 ≡ true) × HistoryAllowed hs

pub reconcile-history :
    (kind : KeyKind) (subject : ℕ) (payment_id order_id : Option ℕ) (db : Db)
    → (reconcile kind subject payment_id order_id db).history ≡ db.history
unfolding reconcile
reconcile-history kind subject payment_id order_id db = ground arith

pub issue_invoice-history :
    (o : Order) (db db' : Db) → issue_invoice o db ≡ ok db' → db'.history ≡ db.history
unfolding issue_invoice
issue_invoice-history o db db' e = ground arith

pub issue_credit_note-history :
    (o : Order) (db db' : Db) → issue_credit_note o db ≡ ok db' → db'.history ≡ db.history
unfolding issue_credit_note
issue_credit_note-history o db db' e = ground arith

pub mark_paid-HistoryAllowed :
    (o : Order) (p : Payment) (db : Db)
    → HistoryAllowed db.history
    → HistoryAllowed (mark_paid o p db).1.history
unfolding mark_paid HistoryAllowed
mark_paid-HistoryAllowed o p db h = ground arith

pub restock_once-history :
    (o o' : Order) (db db' : Db)
    → restock_once o db ≡ ok (o', db')
    → (db'.history ≡ db.history) × (o'.status ≡ o.status)
unfolding restock_once
restock_once-history o o' db db' e = ground arith

pub fulfil_order-HistoryAllowed :
    (order_id : ℕ) (db db' : Db) (o : Order)
    → fulfil_order order_id db ≡ ok (o, db')
    → HistoryAllowed db.history
    → HistoryAllowed db'.history
unfolding fulfil_order issue_invoice HistoryAllowed
fulfil_order-HistoryAllowed order_id db db' o e h = ground arith

pub cancel_order-HistoryAllowed :
    (answer : Payment → Answer) (meanwhile : Db → Db) (order_id : ℕ) (db : Db)
    → HistoryAllowed db.history
    → HistoryAllowed (meanwhile db).history
    → HistoryAllowed (cancel_order answer meanwhile order_id db).1.history
unfolding cancel_order restock_once reconcile HistoryAllowed
cancel_order-HistoryAllowed answer meanwhile order_id db h h' = ground arith

pub refund_order-HistoryAllowed :
    (o : Order) (r : Refund) (db db' : Db)
    → (same_status o.status paid || same_status o.status fulfilled) ≡ true
    → refund_order o r db ≡ ok db'
    → HistoryAllowed db.history
    → HistoryAllowed db'.history
unfolding refund_order restock_once issue_credit_note HistoryAllowed
refund_order-HistoryAllowed o r db db' e h i = ground arith

pub note_mismatch-history :
    (amount : Option ℕ) (currency : Option Text) (r : Refund) (db : Db)
    → (note_mismatch amount currency r db).history ≡ db.history
unfolding note_mismatch reconcile
note_mismatch-history amount currency r db = ground arith

pub confirm_refund-HistoryAllowed :
    (r : Refund) (reference amount : Option ℕ) (db db' : Db)
    → confirm_refund r reference amount db ≡ ok db'
    → HistoryAllowed db.history
    → HistoryAllowed db'.history
unfolding confirm_refund reconcile HistoryAllowed
confirm_refund-HistoryAllowed r reference amount db db' e h =
    grind (arith, refund_order-HistoryAllowed)

pub apply_report-HistoryAllowed :
    (r : Refund) (reported : Reported) (amount reference : Option ℕ) (db db' : Db)
    → apply_report r reported amount reference db ≡ ok db'
    → HistoryAllowed db.history
    → HistoryAllowed db'.history
unfolding apply_report HistoryAllowed
apply_report-HistoryAllowed r reported_succeeded amount reference db db' e h =
    grind (arith, confirm_refund-HistoryAllowed)
apply_report-HistoryAllowed r reported_failed amount reference db db' e h = ground arith
apply_report-HistoryAllowed r reported_canceled amount reference db db' e h = ground arith
apply_report-HistoryAllowed r reported_other amount reference db db' e h = ground arith

-- what holds on both ways of an `if` that returns or goes on
if_returned :
    (b : Bool) (x y : Db) (m : Result Error Db)
    → (if b then ok x else m) ≡ ok y
    → HistoryAllowed x.history
    → (m ≡ ok y → HistoryAllowed y.history)
    → HistoryAllowed y.history
if_returned true x y m e h k = ground arith
if_returned false x y m e h k = k e

pub apply_refund_state-HistoryAllowed :
    (r : Refund) (reported : Reported) (amount : Option ℕ) (currency : Option Text)
    (reference : Option ℕ) (db db' : Db)
    → apply_refund_state r reported amount currency reference db ≡ ok db'
    → HistoryAllowed db.history
    → HistoryAllowed db'.history
unfolding apply_refund_state HistoryAllowed
apply_refund_state-HistoryAllowed r reported amount currency reference db db' e h =
    if_returned (is_final r.status) _ db' _ e kept
      (λ e'. apply_report-HistoryAllowed _ reported amount reference _ db' e' kept)
  where
    kept : HistoryAllowed (note_mismatch amount currency r db).history
    kept = rw (note_mismatch-history amount currency r db) h
