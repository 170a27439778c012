-- ===== src/Lifecycle/Db.antt =====
-- The rows of the lifecycle, and the repository methods on them.
--
-- A method runs in a transaction: it returns the new rows, or raises, and then what it wrote is rolled
-- back. Ids and the provider's references are numbers; a dedupe key is the text before its colon,
-- as a constructor, and the id behind it. `disputes` and `job_queue` are wired in, as in production.
use fast_api_e_commerce.Prelude.{
  ℕ, ◌+◌, Bool, true, false, ◌&&◌, Option, List, [], ◌∷◌, ltb, ◌==◌, if◌then◌else◌, any, find,
  select,
}
use fast_api_e_commerce.Orders.Types.{Order, OrderStatus, Text}
use fast_api_e_commerce.Products.{Product, Variant, Table, update}

pub data PaymentStatus : Type 0 where
  pending succeeded failed refunded : PaymentStatus

pub data RefundStatus : Type 0 where
  requested pending succeeded failed uncertain : RefundStatus

pub data DisputeStatus : Type 0 where
  open_dispute under_review won lost closed : DisputeStatus

-- `provider_is_demo` is `payment.provider == "demo"`, and `by_reference` is the specification's
-- `refund_needs_provider_reference`. An amount not yet refunded (NULL) reads as 0.
pub record Payment : Type 0 where
  pub id : ℕ
  pub order_id : ℕ
  pub provider : ℕ
  pub provider_is_demo : Bool
  pub by_reference : Bool
  pub provider_config_id : Option ℕ
  pub provider_payment_id : ℕ
  pub provider_reference : Option ℕ
  pub status : PaymentStatus
  pub amount_cents : ℕ
  pub currency : Text
  pub provider_refund_id : Option ℕ
  pub refunded_amount_cents : ℕ

-- `started_here` is `origin == "requested"`; `attempt_number` is what the idempotency key ends in.
pub record Refund : Type 0 where
  pub id : ℕ
  pub payment_id : ℕ
  pub order_id : ℕ
  pub amount_cents : ℕ
  pub currency : Text
  pub status : RefundStatus
  pub provider_refund_id : Option ℕ
  pub attempt_number : ℕ
  pub attempts : ℕ
  pub cancels_order : Bool
  pub started_here : Bool

pub record Dispute : Type 0 where
  pub id : ℕ
  pub provider : ℕ
  pub provider_dispute_id : ℕ
  pub payment_id : ℕ
  pub order_id : ℕ
  pub amount_cents : ℕ
  pub currency : Text
  pub status : DisputeStatus

-- the texts that dedupe keys begin with; `orphan_uncertain` is `cancel_uncertain` before the provider's
-- id of an intent, where `cancel_uncertain` is the one before an order's id
pub data KeyKind : Type 0 where
  cancel_payment_succeeded cancel_uncertain refund_uncertain refund_mismatch : KeyKind
  external_refund external_refund_invalid external_refund_exceeds : KeyKind
  dispute_opened dispute_lost unmatched_dispute refund_blocked_by_dispute : KeyKind
  dispute_during_refund dispute_opened_after_refund : KeyKind
  order_mismatch unverifiable_payment amount_mismatch unmatched_payment : KeyKind
  late_payment unknown_refund orphan_uncertain : KeyKind

unfoldable pub KeyKind-discrete : Discrete KeyKind
KeyKind-discrete = hlevel

-- `kind` and `subject` are the two parts of the dedupe key, from which the column `kind` follows; the
-- details and the resolution's text are left out.
pub record Reconciliation : Type 0 where
  pub id : ℕ
  pub kind : KeyKind
  pub subject : ℕ
  pub payment_id : Option ℕ
  pub order_id : Option ℕ
  pub is_open : Bool

pub data AuditAction : Type 0 where
  order_paid order_fulfilled order_cancelled refund_requested cancel_refund_requested : AuditAction
  refund_blocked refund_uncertain_action refund_mismatch_action refund_failed : AuditAction
  refund_succeeded reconciliation_opened reconciliation_resolved external_recorded : AuditAction
  dispute_opened_action dispute_changed dispute_lost_action dispute_closed_action : AuditAction

pub data DocType : Type 0 where
  tax_invoice credit_note : DocType

pub record Db : Type 0 where
  pub orders : Table Order
  pub payments : List Payment
  pub refunds : List Refund
  pub disputes : List Dispute
  pub reconciliations : List Reconciliation
  pub products : Table Product
  pub variants : Table Variant
  pub released_lines : List ℕ
  pub history : List (ℕ × OrderStatus × OrderStatus)
  pub documents : List (ℕ × DocType)
  pub has_profile : Bool
  pub jobs : List ℕ
  pub audits : List (AuditAction × ℕ)

pub data Error : Type 0 where
  order_not_found invalid_transition status_change_refused cancellation_not_allowed : Error
  payment_in_progress currency_unknown cancel_and_refund_not_allowed not_refundable : Error
  refund_already_requested payment_inconsistent payment_disputed partial_refund : Error
  money_error profile_incomplete reconciliation_not_open invoice_not_applicable runtime_error :
      Error

-- `orders.update_status`, on a loaded order
unfoldable pub set_status : Order → OrderStatus → Db → Db
set_status o status db = record db {
  orders = update db.orders o.id (record o { status = status });
  history = (o.id, o.status, status) ∷ db.history;
}

abbrev pub audit : AuditAction → ℕ → Db → Db
audit action target db = record db { audits = (action, target) ∷ db.audits }

-- `payments.list_for_order`: the rows stand newest first
abbrev pub payments_of : ℕ → Db → List Payment
payments_of order_id db = select (λ p. p.order_id == order_id) db.payments

abbrev pub get_payment : ℕ → Db → Option Payment
get_payment id db = find (λ p. p.id == id) db.payments

-- the row of the same id gives way to the new one
abbrev pub put_payment : Payment → List Payment → List Payment
put_payment p [] = []
put_payment p (q ∷ qs) = if q.id == p.id then p ∷ qs else q ∷ put_payment p qs

abbrev pub save_payment : Payment → Db → Db
save_payment p db = record db { payments = put_payment p db.payments }

abbrev pub get_refund : ℕ → Db → Option Refund
get_refund id db = find (λ r. r.id == id) db.refunds

abbrev pub put_refund : Refund → List Refund → List Refund
put_refund r [] = []
put_refund r (q ∷ qs) = if q.id == r.id then r ∷ qs else q ∷ put_refund r qs

abbrev pub save_refund : Refund → Db → Db
save_refund r db = record db { refunds = put_refund r db.refunds }

abbrev pub in_flight : RefundStatus → Bool
in_flight RefundStatus.requested = true
in_flight RefundStatus.pending = true
in_flight RefundStatus.uncertain = true
in_flight _ = false

-- `ACTIVE_REFUND_STATUSES`
abbrev pub is_active : RefundStatus → Bool
is_active RefundStatus.failed = false
is_active _ = true

-- `refunds.get_active_for_payment`
abbrev pub active_for_payment : ℕ → Db → Option Refund
active_for_payment payment_id db =
    find (λ r. r.payment_id == payment_id && r.started_here && in_flight r.status) db.refunds

-- `refunds.has_submitted_refund`
abbrev pub is_submitted : Refund → Bool
is_submitted r = elim r.status [
  | RefundStatus.requested ↦ ltb 0 r.attempts
  | RefundStatus.failed ↦ false
  | _ ↦ true
]

abbrev pub has_submitted_refund : ℕ → Db → Bool
has_submitted_refund payment_id db =
    any (λ r. r.payment_id == payment_id && is_submitted r) db.refunds

-- `refunds.has_cancelling_refund`
abbrev pub has_cancelling_refund : ℕ → Db → Bool
has_cancelling_refund order_id db =
    any (λ r. r.order_id == order_id && r.cancels_order && in_flight r.status) db.refunds

-- `refunds.committed_amount`
unfoldable pub committed : ℕ → List Refund → ℕ
committed payment_id [] = 0
committed payment_id (r ∷ rs) =
    (if r.payment_id == payment_id && is_active r.status then r.amount_cents else 0)
    + committed payment_id rs

-- `refunds.count_for_payment`
abbrev pub count_for_payment : ℕ → List Refund → ℕ
count_for_payment payment_id [] = 0
count_for_payment payment_id (r ∷ rs) =
    (if r.payment_id == payment_id then 1 else 0) + count_for_payment payment_id rs

-- `disputes.has_open`
abbrev pub is_open : DisputeStatus → Bool
is_open open_dispute = true
is_open under_review = true
is_open _ = false

abbrev pub has_open_dispute : ℕ → Db → Bool
has_open_dispute payment_id db =
    any (λ d. d.payment_id == payment_id && is_open d.status) db.disputes
