-- ===== src/Lifecycle/Reports.antt =====
-- What the provider reports of a refund: of one that was requested here, and of one that began at the
-- provider.
use fast_api_e_commerce.Prelude.{
  ℕ, ◌+◌, Bool, true, false, not, ◌&&◌, ◌||◌, Option, none, some, ◌∷◌, Result, ok, err, ◌>>=◌, ltb,
  leb, ◌==◌, if◌then◌else◌, any, length, same_key,
}
use fast_api_e_commerce.Orders.Types.{
  Order, OrderStatus, fulfilled, paid, same_status, Text, same_text,
}
use fast_api_e_commerce.Lifecycle.Db.{
  Db, Error, runtime_error, Payment, PaymentStatus, Refund, RefundStatus, set_status, audit,
  get_payment, save_payment, get_refund, save_refund, committed, has_open_dispute,
  refund_mismatch_action, refund_failed, refund_succeeded, external_recorded, dispute_during_refund,
  refund_mismatch, external_refund, external_refund_invalid, external_refund_exceeds,
}
use fast_api_e_commerce.Lifecycle.Documents.{lock_order, reconcile, issue_credit_note}
use fast_api_e_commerce.Lifecycle.Restock.{restock_once}

-- the status that is reported; `reported_other` is any other text, or none
pub data Reported : Type 0 where
  reported_succeeded reported_failed reported_canceled reported_other : Reported

-- `amount or default`: 0 is taken for no amount
abbrev pub amount_or : Option ℕ → ℕ → ℕ
amount_or none d = d
amount_or (some a) d = if a == 0 then d else a

abbrev pub first_some : Option ℕ → Option ℕ → Option ℕ
first_some none b = b
first_some (some a) _ = some a

-- `payments.add_refunded_amount`
unfoldable pub add_refunded_amount : Option ℕ → ℕ → Payment → Payment
add_refunded_amount reference amount p = record p {
  refunded_amount_cents = p.refunded_amount_cents + amount;
  provider_refund_id = first_some reference p.provider_refund_id;
  status =
      if leb p.amount_cents (p.refunded_amount_cents + amount)
      then PaymentStatus.refunded
      else p.status;
}

abbrev pub fully_refunded : Payment → Bool
fully_refunded p = leb p.amount_cents p.refunded_amount_cents

-- the order of a fully refunded payment is refunded, and restocked where that was asked for
unfoldable pub refund_order : Order → Refund → Db → Result Error Db
unfolding set_status issue_credit_note restock_once
refund_order o r db =
    issue_credit_note (record o { status = OrderStatus.refunded })
      (set_status o OrderStatus.refunded db)
    >>= λ db'.
        (if r.cancels_order && not (same_status o.status fulfilled)
          then (restock_once (record o { status = OrderStatus.refunded }) db' >>= λ s. ok s.1)
          else ok db')

abbrev pub closes_order : Refund → Payment → Order → Bool
closes_order r p o =
    r.started_here
    && fully_refunded p
    && (same_status o.status paid || same_status o.status fulfilled)

unfoldable pub note_dispute : Refund → Payment → Db → Db
unfolding reconcile
note_dispute r p db =
    if has_open_dispute p.id db
    then reconcile dispute_during_refund r.id (some p.id) (some p.order_id) db
    else db

-- the refund of the payment p of the order o is confirmed
unfoldable pub confirm_for : Refund → Option ℕ → Option ℕ → Order → Payment → Db → Result Error Db
unfolding refund_order add_refunded_amount note_dispute
confirm_for r reference amount o p db =
    let p' : Payment = add_refunded_amount reference (amount_or amount r.amount_cents) p in
    let db' : Db = note_dispute r p' (save_payment p' db) in
    (if closes_order r p' o then refund_order o r db' else ok db') >>= λ db''.
    ok (audit refund_succeeded r.id db'')

-- `_confirm_refund`
unfoldable pub confirm_refund : Refund → Option ℕ → Option ℕ → Db → Result Error Db
unfolding confirm_for
confirm_refund r reference amount db = lock_order r.order_id db >>= λ o.
    elim (get_payment r.payment_id db) [
      | none ↦ err runtime_error
      | some p ↦ confirm_for r reference amount o p db
    ]

-- whether the amount or the currency that is reported is another one than was requested
abbrev pub mismatched : Option ℕ → Option Text → Refund → Bool
mismatched amount currency r =
    elim amount [ none ↦ false | some a ↦ not (a == r.amount_cents) ]
    || elim currency [ none ↦ false | some c ↦ not (same_text c r.currency) ]

unfoldable pub note_mismatch : Option ℕ → Option Text → Refund → Db → Db
unfolding reconcile
note_mismatch amount currency r db =
    if mismatched amount currency r
    then audit refund_mismatch_action r.id
        (reconcile refund_mismatch r.id none (some r.order_id) db)
    else db

abbrev pub is_final : RefundStatus → Bool
is_final RefundStatus.succeeded = true
is_final RefundStatus.failed = true
is_final _ = false

abbrev accepted : RefundStatus → RefundStatus
accepted RefundStatus.requested = RefundStatus.pending
accepted s = s

-- the new state of a refund that is not final
unfoldable pub apply_report : Refund → Reported → Option ℕ → Option ℕ → Db → Result Error Db
unfolding confirm_refund
apply_report r reported_succeeded amount reference db =
    let r' : Refund = record r { status = RefundStatus.succeeded } in
    confirm_refund r' (first_some reference r.provider_refund_id) amount (save_refund r' db)
apply_report r reported_other amount reference db =
    ok (save_refund (record r { status = accepted r.status }) db)
apply_report r _ amount reference db =
    ok (audit refund_failed r.id (save_refund (record r { status = RefundStatus.failed }) db))

-- `apply_refund_state`
unfoldable pub apply_refund_state :
    Refund → Reported → Option ℕ → Option Text → Option ℕ → Db → Result Error Db
unfolding note_mismatch apply_report
apply_refund_state r reported amount currency reference db =
    let r' : Refund = record r { provider_refund_id = first_some r.provider_refund_id reference } in
    let db' : Db = note_mismatch amount currency r db in
    if is_final r.status
    then ok (save_refund r' db')
    else apply_report r' reported amount reference db'

-- `finish_refund`
unfoldable pub finish_refund :
    ℕ → Reported → Option ℕ → Option Text → Option ℕ → Db → Result Error Db
unfolding apply_refund_state
finish_refund refund_id reported amount currency reference db = elim (get_refund refund_id db) [
  | none ↦ ok db
  | some r ↦ apply_refund_state r reported amount currency reference db
]

-- `refunds_cumulative_guard`, of the database: whether a new active refund of that amount may stand
abbrev pub within_limit : Payment → ℕ → Db → Bool
unfolding committed
within_limit p amount db = elim (get_payment p.id db) [
  | none ↦ true
  | some q ↦ leb (committed p.id db.refunds + amount) q.amount_cents
]

-- the refund that began at the provider; its idempotency key, `provider:{reference}`, is not that of
-- an attempt
abbrev external : Payment → ℕ → ℕ → Db → Refund
external p reference amount db = record {
  id = length db.refunds;
  payment_id = p.id;
  order_id = p.order_id;
  amount_cents = amount;
  currency = p.currency;
  status = RefundStatus.succeeded;
  provider_refund_id = some reference;
  attempt_number = 0;
  attempts = 0;
  cancels_order = false;
  started_here = false;
}

abbrev usable : Payment → Option ℕ → Option Text → Bool
usable p amount currency =
    elim amount [ none ↦ false | some a ↦ ltb 0 a ]
    && elim currency [ none ↦ false | some c ↦ same_text c p.currency ]

-- `record_external_refund`: whether it was recorded, and the rows
unfoldable pub record_external_refund : Payment → ℕ → Option ℕ → Option Text → Db → Bool × Db
unfolding reconcile add_refunded_amount committed
record_external_refund p reference amount currency db =
    if any (λ r. same_key r.provider_refund_id (some reference)) db.refunds
    then (false, db)
    else if not (usable p amount currency)
    then (false, reconcile external_refund_invalid reference (some p.id) (some p.order_id) db)
    else if not (within_limit p (amount_or amount 0) db)
    then (false, reconcile external_refund_exceeds reference (some p.id) (some p.order_id) db)
    else (
      true,
      audit external_recorded p.id (
          reconcile external_refund reference (some p.id) (some p.order_id) (
            save_payment (add_refunded_amount (some reference) (amount_or amount 0) p)
              (record db { refunds = external p reference (amount_or amount 0) db ∷ db.refunds }))),
    )
