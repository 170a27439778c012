-- ===== src/Lifecycle/Safety.antt =====
-- A refund and a cancellation that went through, against the rows before.
use mathlib.Core.List.{Memᴰ}
use fast_api_e_commerce.Prelude.{
  ℕ, Bool, true, false, not, ◌&&◌, Option, none, some, List, [], ◌∷◌, Result, ok, err, ◌≡◌, ◌≢◌,
  ◌⊎◌, arith, any, map, find, select, ◌==◌, sym, Bool-cases, bind_ok, Option-cases, inl, inr,
  raise_if, if◌then◌else◌, ◌>>=◌,
}
use fast_api_e_commerce.Orders.Types.{Order, OrderStatus, Text, same_status, paid, cancelled}
use fast_api_e_commerce.Lifecycle.Db.{
  Db, Error, currency_unknown, cancel_and_refund_not_allowed, refund_already_requested,
  active_for_payment, Payment, Refund, RefundStatus, committed, has_open_dispute, get_payment,
  get_refund, payments_of,
}
use fast_api_e_commerce.Lifecycle.Documents.{lock_order}
use fast_api_e_commerce.Lifecycle.Status.{
  Answer, outcome_cancelled, is_completed, is_uncertain, is_succeeded, intents_to_cancel,
  finish_cancel,
}
use fast_api_e_commerce.Lifecycle.Refunds.{
  request_refund, payment_to_refund, new_refund, same_flag, or_raise, begin_refund_attempt,
  begin_for, submit, RefundAttempt,
}
use fast_api_e_commerce.Money.{to_stripe_amount}

-- what passes a test where it is found in the payments of an order is a stored payment of the order
find-Stored :
    (test : Payment → Bool) (id : ℕ) (ps : List Payment) (p : Payment)
    → find test (select (λ q. q.order_id == id) ps) ≡ some p
    → Memᴰ p ps × (p.order_id ≡ id) × (test p ≡ true)
find-Stored test id [] p e = absurd (ground arith)
find-Stored test id (q ∷ qs) p e = elim (Bool-cases (q.order_id == id)) [
  | inr n ↦ let r = find-Stored test id qs p (ground arith) in (Memᴰ.tail r.0, r.1, r.2)
  | inl n ↦ elim (Bool-cases (test q)) [
    | inl t ↦
        let s : q ≡ p = ground arith in
        let m : q.order_id ≡ id = ground arith in (Memᴰ.head (sym s), rw s at m, rw s at t)
    | inr t ↦ let r = find-Stored test id qs p (ground arith) in (Memᴰ.tail r.0, r.1, r.2)
  ]
]

-- the payment p of the order o is stored and has succeeded, and it is the one named, if one is
pub Refundable : Option ℕ → Order → Payment → Db → Type 0
Refundable payment_id o p db =
    Memᴰ p db.payments
    × (p.order_id ≡ o.id)
    × (is_succeeded p.status ≡ true)
    × ((i : ℕ) → payment_id ≡ some i → p.id ≡ i)

payment_to_refund-Refundable :
    (payment_id : Option ℕ) (o : Order) (db : Db) (p : Payment)
    → payment_to_refund payment_id o db ≡ ok p
    → Refundable payment_id o p db
unfolding payment_to_refund Refundable
payment_to_refund-Refundable none o db p e =
    let r = find-Stored (λ q. is_succeeded q.status) o.id db.payments p (ground arith) in
    (r.0, r.1, r.2, λ i h. absurd (ground arith))
payment_to_refund-Refundable (some id) o db p e =
    let r = find-Stored (λ q. q.id == id) o.id db.payments p (ground arith) in
    (r.0, r.1, ground arith, λ i h. let t = r.2 in ground arith)

-- what a new refund of the payment p is, and what it requires
pub NewRefund : Payment → Refund → Db → Db → Type 0
NewRefund p r db db' =
    (has_open_dispute p.id db ≡ false)
    × (r.payment_id ≡ p.id)
    × (r.amount_cents ≡ p.amount_cents)
    × (committed p.id db.refunds ≡ 0)
    × (committed p.id db'.refunds ≡ p.amount_cents)

new_refund-NewRefund :
    (o : Order) (currency : Text) (p : Payment) (c : Bool) (r : Refund) (db db' : Db)
    → new_refund o currency p c db ≡ ok (r, db')
    → NewRefund p r db db'
unfolding new_refund committed to_stripe_amount NewRefund
new_refund-NewRefund o currency p c r db db' e =
    (ground arith, ground arith, ground arith, ground arith, ground arith)

or_existing :
    (existing : Option Refund) (c : Bool) (m : Result Error (Refund × Db)) (r : Refund)
    (db db' : Db)
    → (elim existing as (λ _. Result Error ((Refund × Bool) × Db)) [
      | some x ↦
          if same_flag x.cancels_order c then ok ((x, false), db) else err refund_already_requested
      | none ↦ m >>= λ s. ok ((s.0, true), s.1)
    ])
      ≡ ok ((r, true), db')
    → m ≡ ok (r, db')
or_existing existing c m r db db' e = ground arith

-- A refund that `request_refund` creates is of a stored payment of the order, which had succeeded and
-- is the payment that was named, if one was. No dispute was open on it and nothing of it was refunded
-- or in flight. The refund is for the whole amount of the payment, and with it exactly that amount is
-- committed.
pub request_refund_sound :
    (id : ℕ) (payment_id : Option ℕ) (cancels_order : Bool) (r : Refund) (db db' : Db)
    → request_refund id payment_id cancels_order db ≡ ok ((r, true), db')
    → (o : Order) × (db.orders id ≡ some o)
      × (p : Payment) × Refundable payment_id o p db
      × NewRefund p r db db'
unfolding request_refund committed
request_refund_sound id payment_id cancels_order r db db' e =
    let (o, l, e1) = bind_ok (lock_order id db) _ e in
    let (currency, _, e2) = bind_ok (or_raise o.currency currency_unknown) _ e1 in
    let (_, _, e3) =
      bind_ok
        (raise_if (cancels_order && not (same_status o.status paid)) cancel_and_refund_not_allowed)
        _ e2 in
    let (p, ep, e4) = bind_ok (payment_to_refund payment_id o db) _ e3 in
    (
      o,
      ground arith,
      p,
      payment_to_refund-Refundable payment_id o db p ep,
      new_refund-NewRefund o currency p cancels_order r db db'
          (or_existing (active_for_payment p.id db) cancels_order _ r db db' e4),
    )

-- what is submitted
submit_sound :
    (r : Refund) (p : Payment) (a : RefundAttempt) (db db' : Db)
    → submit r p db ≡ ok (some a, db')
    → (a.amount ≡ r.amount_cents) × (a.idempotency_key ≡ (r.payment_id, r.attempt_number))
unfolding submit to_stripe_amount
submit_sound r p a db db' e = ground arith

-- what an attempt of the refund r of the payment p is, and what it requires
pub Submitted : Refund → Payment → RefundAttempt → Db → Type 0
Submitted r p a db =
    (a.amount ≡ r.amount_cents)
    × (a.idempotency_key ≡ (r.payment_id, r.attempt_number))
    × ((has_open_dispute p.id db ≡ false) ⊎ (r.attempts ≢ 0))

begin_for-Submitted :
    (r : Refund) (p : Payment) (a : RefundAttempt) (db db' : Db)
    → begin_for r p db ≡ ok (some a, db')
    → Submitted r p a db
unfolding begin_for Submitted
begin_for-Submitted r p a db db' e = grind (arith, submit_sound)

-- What `begin_refund_attempt` hands out for submission is an attempt of a stored refund that is still
-- only requested: for its amount, under the idempotency key that the refund has kept since it was
-- created. Where a dispute is open on the payment, the refund had been attempted before.
pub begin_refund_attempt_sound :
    (id : ℕ) (a : RefundAttempt) (db db' : Db)
    → begin_refund_attempt id db ≡ ok (some a, db')
    → (r : Refund) × (p : Payment) × (get_refund id db ≡ some r)
      × (get_payment r.payment_id db ≡ some p)
      × (r.status ≡ RefundStatus.requested)
      × Submitted r p a db
unfolding begin_refund_attempt
begin_refund_attempt_sound id a db db' e = elim (Option-cases (get_refund id db)) [
  | inl h ↦ absurd (ground arith)
  | inr (r, er) ↦ elim (Option-cases (get_payment r.payment_id db)) [
    | inl h ↦ absurd (ground arith)
    | inr (p, ep) ↦ (r, p, er, ep, ground arith, begin_for-Submitted r p a db db' (ground arith))
  ]
]

-- what a cancelled order was when its intents were chosen, and what the rows were at the end
pub Cancelled : (Payment → Answer) → ℕ → Db → Db → Db → Type 0
Cancelled answer id db now db' =
    (o : Order) × (intents : List Payment) × (db.orders id ≡ some o)
    × (intents_to_cancel o db ≡ ok intents)
    × (any is_completed (map answer intents) ≡ false)
    × (any is_uncertain (map answer intents) ≡ false)
    × (finish_cancel id now ≡ ok (outcome_cancelled, db'))

-- the order o, and no other, is cancelled, and the history tells it
pub Closed : Order → Db → Db → Type 0
Closed o db db' =
    ((o' : Order) × (db'.orders o.id ≡ some o') × (o'.status ≡ cancelled))
    × ((i : ℕ) → i ≢ o.id → db'.orders i ≡ db.orders i)
    × (db'.history ≡ (o.id, OrderStatus.pending, cancelled) ∷ db.history)

-- the order was still pending, without a successful payment, and became cancelled
pub BecameCancelled : ℕ → Db → Db → Type 0
BecameCancelled id now db' =
    (o : Order) × (now.orders id ≡ some o)
    × (o.status ≡ OrderStatus.pending)
    × (any (λ p. is_succeeded p.status) (payments_of o.id now) ≡ false)
    × Closed o now db'
