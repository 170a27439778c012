-- ===== src/Lifecycle/Refunds.antt =====
-- Refunds: the request, the attempt that is handed out for submission, and one that failed.
use fast_api_e_commerce.Prelude.{
  ℕ, ◌+◌, Bool, true, false, not, ◌&&◌, ◌||◌, Option, none, some, ◌∷◌, Result, ok, err, ◌>>=◌, ◌>>◌,
  raise_if, ltb, leb, ◌==◌, if◌then◌else◌, find, length, get_or, pos,
}
use fast_api_e_commerce.Orders.Types.{
  Order, OrderStatus, paid, fulfilled, same_status, Text, same_text,
}
use fast_api_e_commerce.Money.{MoneyError, to_stripe_amount}
use fast_api_e_commerce.Lifecycle.Db.{
  Db, Error, currency_unknown, cancel_and_refund_not_allowed, not_refundable,
  refund_already_requested, payment_inconsistent, payment_disputed, partial_refund, money_error,
  runtime_error, Payment, Refund, RefundStatus, audit, payments_of, get_payment, get_refund,
  save_refund, active_for_payment, committed, count_for_payment, has_open_dispute, refund_requested,
  cancel_refund_requested, refund_blocked, refund_uncertain_action, refund_blocked_by_dispute,
  dispute_during_refund, refund_uncertain,
}
use fast_api_e_commerce.Lifecycle.Documents.{lock_order, reconcile}
use fast_api_e_commerce.Lifecycle.Status.{is_succeeded}

abbrev pub or_raise : {A : Type 0} → Option A → Error → Result Error A
or_raise none e = err e
or_raise (some a) _ = ok a

abbrev as_money_error : {A : Type 0} → Result MoneyError A → Result Error A
as_money_error (err _) = err money_error
as_money_error (ok a) = ok a

abbrev pub same_flag : Bool → Bool → Bool
same_flag true b = b
same_flag false b = not b

abbrev is_paid_or_fulfilled : OrderStatus → Bool
is_paid_or_fulfilled s = same_status s paid || same_status s fulfilled

-- the payment to refund: the newest successful one, or the one named if it was successful
unfoldable pub payment_to_refund : Option ℕ → Order → Db → Result Error Payment
payment_to_refund none o db =
    if is_paid_or_fulfilled o.status
    then or_raise (find (λ p. is_succeeded p.status) (payments_of o.id db)) not_refundable
    else err not_refundable
payment_to_refund (some id) o db = elim (find (λ p. p.id == id) (payments_of o.id db)) [
  | none ↦ err not_refundable
  | some p ↦ if is_succeeded p.status then ok p else err not_refundable
]

-- a new refund of a payment, which is queued for execution
unfoldable pub create_refund : Order → Payment → ℕ → Bool → Db → Refund × Db
create_refund o p amount cancels_order db =
    let r : Refund = record {
      id = length db.refunds;
      payment_id = p.id;
      order_id = o.id;
      amount_cents = amount;
      currency = p.currency;
      status = RefundStatus.requested;
      provider_refund_id = none;
      attempt_number = count_for_payment p.id db.refunds;
      attempts = 0;
      cancels_order = cancels_order;
      started_here = true;
    } in
    (
      r,
      record db {
        refunds = r ∷ db.refunds;
        jobs = r.id ∷ db.jobs;
        audits =
            if cancels_order
            then (cancel_refund_requested, o.id) ∷ (refund_requested, r.id) ∷ db.audits
            else (refund_requested, r.id) ∷ db.audits;
      },
    )

-- the refund of a payment that has none in flight
unfoldable pub new_refund : Order → Text → Payment → Bool → Db → Result Error (Refund × Db)
unfolding create_refund to_stripe_amount committed
new_refund o order_currency p cancels_order db = do
  raise_if (not (same_text order_currency p.currency)) payment_inconsistent
  raise_if (has_open_dispute p.id db) payment_disputed
  raise_if (leb p.amount_cents (committed p.id db.refunds)) not_refundable
  raise_if (ltb 0 (committed p.id db.refunds)) partial_refund
  amount ← as_money_error (to_stripe_amount (pos p.amount_cents) p.currency)
  ok (create_refund o p amount cancels_order db)

-- `request_refund`: the refund, whether it is new, and the rows
unfoldable pub request_refund : ℕ → Option ℕ → Bool → Db → Result Error ((Refund × Bool) × Db)
unfolding payment_to_refund new_refund
request_refund order_id payment_id cancels_order db = do
  o ← lock_order order_id db
  currency ← or_raise o.currency currency_unknown
  raise_if (cancels_order && not (same_status o.status paid)) cancel_and_refund_not_allowed
  p ← payment_to_refund payment_id o db
  elim (active_for_payment p.id db) [
    | some existing ↦
        if same_flag existing.cancels_order cancels_order
        then ok ((existing, false), db)
        else err refund_already_requested
    | none ↦ new_refund o currency p cancels_order db >>= λ r. ok ((r.0, true), r.1)
  ]

-- `RefundAttempt`; the idempotency key is `refund:{payment_id}:{attempt_number}`.
pub record RefundAttempt : Type 0 where
  pub refund_id : ℕ
  pub provider_payment_id : ℕ
  pub provider_config_id : Option ℕ
  pub amount : ℕ
  pub currency : Text
  pub idempotency_key : ℕ × ℕ

abbrev pub is_requested : RefundStatus → Bool
is_requested RefundStatus.requested = true
is_requested _ = false

-- what is to be sent to the provider, with the attempt counted
unfoldable pub submit : Refund → Payment → Db → Result Error (Option RefundAttempt × Db)
unfolding to_stripe_amount
submit r p db = do
  amount ← as_money_error (to_stripe_amount (pos r.amount_cents) r.currency)
  ok (
    some (record {
      refund_id = r.id;
      provider_payment_id =
          get_or (if p.by_reference then p.provider_reference else none) p.provider_payment_id;
      provider_config_id = p.provider_config_id;
      amount = amount;
      currency = r.currency;
      idempotency_key = (r.payment_id, r.attempt_number);
    }),
    save_refund (record r { attempts = r.attempts + 1 }) db,
  )

-- the attempt of a requested refund, which an open dispute blocks if it is the first
unfoldable pub begin_for : Refund → Payment → Db → Result Error (Option RefundAttempt × Db)
unfolding submit reconcile
begin_for r p db =
    if has_open_dispute p.id db
    then (if r.attempts == 0
        then ok (
          none,
          audit refund_blocked r.id (
              reconcile refund_blocked_by_dispute r.id (some p.id) (some p.order_id)
                (save_refund (record r { status = RefundStatus.failed }) db)),
        )
        else submit r p (reconcile dispute_during_refund r.id (some p.id) (some p.order_id) db))
    else submit r p db

-- `begin_refund_attempt`
unfoldable pub begin_refund_attempt : ℕ → Db → Result Error (Option RefundAttempt × Db)
unfolding begin_for
begin_refund_attempt refund_id db = elim (get_refund refund_id db) [
  | none ↦ ok (none, db)
  | some r ↦
      if not (is_requested r.status)
      then ok (none, db)
      else or_raise (get_payment r.payment_id db) runtime_error >>= λ p. begin_for r p db
]

pub data AttemptFailed : Type 0 where
  stale retry became_uncertain : AttemptFailed

-- `record_refund_attempt_failed`, with the setting `refund_max_attempts`
unfoldable pub record_refund_attempt_failed : ℕ → ℕ → Db → AttemptFailed × Db
unfolding reconcile
record_refund_attempt_failed max_attempts refund_id db = elim (get_refund refund_id db) [
  | none ↦ (stale, db)
  | some r ↦
      if not (is_requested r.status)
      then (stale, db)
      else if ltb r.attempts max_attempts
      then (retry, db)
      else (
        became_uncertain,
        audit refund_uncertain_action r.id (
            reconcile refund_uncertain r.id none (some r.order_id)
              (save_refund (record r { status = RefundStatus.uncertain }) db)),
      )
]
