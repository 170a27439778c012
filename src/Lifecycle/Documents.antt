-- ===== src/Lifecycle/Documents.antt =====
-- What the lifecycle writes beside the rows that it changes: reconciliation records, once for each
-- dedupe key, and the invoice and credit note of an order (app/modules/invoices/services/
-- invoice_service.py; the text and the number of a document are not modelled).
use fast_api_e_commerce.Prelude.{
  ℕ, Bool, true, false, not, ◌&&◌, ◌||◌, Option, none, some, List, [], ◌∷◌, Result, ok, err, ◌==◌,
  if◌then◌else◌, any, length,
}
use fast_api_e_commerce.Orders.Types.{Order, paid, fulfilled, same_status}
use fast_api_e_commerce.Lifecycle.Db.{
  Db, Error, order_not_found, profile_incomplete, invoice_not_applicable, KeyKind, KeyKind-discrete,
  Reconciliation, reconciliation_opened, DocType, tax_invoice, credit_note,
}

-- `_lock_order`
abbrev pub lock_order : ℕ → Db → Result Error Order
lock_order id db = elim (db.orders id) [ none ↦ err order_not_found | some o ↦ ok o ]

unfoldable pub same_kind : KeyKind → KeyKind → Bool
unfolding KeyKind-discrete
same_kind a b = elim (KeyKind-discrete a b) [ yes _ ↦ true | no _ ↦ false ]

unfoldable pub is_recorded : KeyKind → ℕ → List Reconciliation → Bool
unfolding same_kind
is_recorded kind subject [] = false
is_recorded kind subject (r ∷ rs) =
    (same_kind r.kind kind && r.subject == subject) || is_recorded kind subject rs

-- `reconcile`: the new record is audited, one that was there already is not. (A row's id is the
-- number of the rows before it, as none is ever deleted.)
unfoldable pub reconcile : KeyKind → ℕ → Option ℕ → Option ℕ → Db → Db
unfolding is_recorded
reconcile kind subject payment_id order_id db =
    if is_recorded kind subject db.reconciliations then db else record db {
      reconciliations =
          record {
            id = length db.reconciliations;
            kind = kind;
            subject = subject;
            payment_id = payment_id;
            order_id = order_id;
            is_open = true;
          }
          ∷ db.reconciliations;
      audits = (reconciliation_opened, subject) ∷ db.audits;
    }

abbrev same_type : DocType → DocType → Bool
same_type tax_invoice tax_invoice = true
same_type credit_note credit_note = true
same_type _ _ = false

-- `invoice_for`
abbrev pub has_document : ℕ → DocType → Db → Bool
has_document order_id type db = any (λ d. d.0 == order_id && same_type d.1 type) db.documents

-- `_issue`
abbrev issue : ℕ → DocType → Db → Result Error Db
issue order_id type db =
    if db.has_profile
    then ok (record db { documents = (order_id, type) ∷ db.documents })
    else err profile_incomplete

-- `issue_invoice`, not `explicit`
unfoldable pub issue_invoice : Order → Db → Result Error Db
issue_invoice o db =
    if has_document o.id tax_invoice db
    then ok db
    else if o.paid_in_demo_mode
    then ok db
    else if not o.gst_order
    then ok db
    else if same_status o.status paid || same_status o.status fulfilled
    then issue o.id tax_invoice db
    else err invoice_not_applicable

unfoldable pub issue_credit_note : Order → Db → Result Error Db
issue_credit_note o db =
    if not (has_document o.id tax_invoice db)
    then ok db
    else if has_document o.id credit_note db
    then ok db
    else issue o.id credit_note db
