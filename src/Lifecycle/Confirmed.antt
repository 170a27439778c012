-- ===== src/Lifecycle/Confirmed.antt =====
-- What the provider's report of a refund may do to an order.
use fast_api_e_commerce.Prelude.{
  ℕ, ◌+◌, Bool, true, false, Option, some, ◌∷◌, Result, ok, ◌≡◌, ◌≢◌, ◌⊎◌, inl, inr, ap, refl, sym,
  ◌∙◌, ◌≤◌, arith, if◌then◌else◌, bind_ok, Option-cases,
}
use fast_api_e_commerce.Orders.Types.{Order, OrderStatus, paid, fulfilled}
use fast_api_e_commerce.Lifecycle.Db.{Db, Error, Payment, Refund, get_payment, save_payment}
use fast_api_e_commerce.Lifecycle.Documents.{reconcile, issue_credit_note}
use fast_api_e_commerce.Lifecycle.Restock.{restock_once}
use fast_api_e_commerce.Lifecycle.Reports.{
  confirm_refund, confirm_for, note_dispute, refund_order, closes_order, amount_or,
  add_refunded_amount,
}

-- the rows of the orders and the status history are the same
pub SameOrders : Db → Db → Type 0
SameOrders db db' = (db'.orders ≡ db.orders) × (db'.history ≡ db.history)

-- the order o, and no other, is refunded, and the history tells it
pub Refunded : Order → Db → Db → Type 0
Refunded o db db' =
    ((o' : Order) × (db'.orders o.id ≡ some o') × (o'.status ≡ OrderStatus.refunded))
    × ((i : ℕ) → i ≢ o.id → db'.orders i ≡ db.orders i)
    × (db'.history ≡ (o.id, o.status, OrderStatus.refunded) ∷ db.history)

refund_order-row :
    (o : Order) (r : Refund) (db db' : Db)
    → refund_order o r db ≡ ok db'
    → (o' : Order) × (db'.orders o.id ≡ some o') × (o'.status ≡ OrderStatus.refunded)
unfolding refund_order restock_once issue_credit_note
refund_order-row o r db db' e = elim (Option-cases (db'.orders o.id)) [
  | inl h ↦ absurd (ground arith)
  | inr (x, h) ↦ (x, h, ground arith)
]

refund_order-others :
    (o : Order) (r : Refund) (db db' : Db)
    → refund_order o r db ≡ ok db'
    → (i : ℕ) → i ≢ o.id
    → db'.orders i ≡ db.orders i
unfolding refund_order restock_once issue_credit_note
refund_order-others o r db db' e i n = ground arith

refund_order-history :
    (o : Order) (r : Refund) (db db' : Db)
    → refund_order o r db ≡ ok db'
    → db'.history ≡ (o.id, o.status, OrderStatus.refunded) ∷ db.history
unfolding refund_order restock_once issue_credit_note
refund_order-history o r db db' e = ground arith

refund_order-Refunded :
    (o : Order) (r : Refund) (db db' : Db) → refund_order o r db ≡ ok db' → Refunded o db db'
unfolding Refunded
refund_order-Refunded o r db db' e = (
  refund_order-row o r db db' e,
  refund_order-others o r db db' e,
  refund_order-history o r db db' e,
)

-- the order o of the refund r was refunded, as its payment p is fully refunded by that refund
pub ClosesOrder : Refund → Option ℕ → Order → Payment → Db → Db → Type 0
ClosesOrder r amount o p db db' =
    (r.started_here ≡ true)
    × (p.amount_cents ≤ p.refunded_amount_cents + amount_or amount r.amount_cents)
    × ((o.status ≡ paid) ⊎ (o.status ≡ fulfilled))
    × Refunded o db db'

-- no order became refunded, or that of the refund did
pub Confirmed : Refund → Option ℕ → Db → Db → Type 0
Confirmed r amount db db' =
    SameOrders db db'
    ⊎ ((o : Order) × (p : Payment) × (db.orders r.order_id ≡ some o)
        × (get_payment r.payment_id db ≡ some p)
        × ClosesOrder r amount o p db db')

note_dispute-SameOrders :
    (r : Refund) (p : Payment) (db : Db) → SameOrders db (note_dispute r p (save_payment p db))
unfolding note_dispute reconcile SameOrders
note_dispute-SameOrders r p db = (ground arith, ground arith)

Refunded-SameOrders :
    (o : Order) (a b c d : Db) → SameOrders a b → Refunded o b c → SameOrders c d → Refunded o a d
unfolding SameOrders Refunded
Refunded-SameOrders o a b c d f r g = (
  (r.0.0, ap (λ t. t o.id) g.0 ∙ r.0.1, r.0.2),
  (λ i n. ap (λ t. t i) g.0 ∙ r.1 i n ∙ ap (λ t. t i) f.0),
  g.1 ∙ r.2 ∙ ap (λ h. (o.id, o.status, OrderStatus.refunded) ∷ h) f.1,
)

if_then :
    (b : Bool) (m : Result Error Db) (x y : Db)
    → (if b then m else ok x) ≡ ok y
    → ((b ≡ true) × (m ≡ ok y)) ⊎ (x ≡ y)
if_then true m x y e = inl (refl, e)
if_then false m x y e = inr (ground arith)

if_closed :
    (o : Order) (p : Payment) (r : Refund) (db db' : Db)
    → (if closes_order r p o then refund_order o r db else ok db) ≡ ok db'
    → (db' ≡ db) ⊎ ((closes_order r p o ≡ true) × Refunded o db db')
if_closed o p r db db' e = elim (if_then (closes_order r p o) (refund_order o r db) db db' e) [
  | inl (h, g) ↦ inr (h, refund_order-Refunded o r db db' g)
  | inr h ↦ inl (sym h)
]

closes_order_sound :
    (r : Refund) (reference amount : Option ℕ) (o : Order) (p : Payment)
    → closes_order r (add_refunded_amount reference (amount_or amount r.amount_cents) p) o ≡ true
    → (r.started_here ≡ true)
      × (p.amount_cents ≤ p.refunded_amount_cents + amount_or amount r.amount_cents)
      × ((o.status ≡ paid) ⊎ (o.status ≡ fulfilled))
unfolding add_refunded_amount
closes_order_sound r reference amount o p e = ground arith

confirm_for-ClosesOrder :
    (r : Refund) (reference amount : Option ℕ) (o : Order) (p : Payment) (db db' : Db)
    → confirm_for r reference amount o p db ≡ ok db'
    → SameOrders db db' ⊎ ClosesOrder r amount o p db db'
unfolding confirm_for ClosesOrder SameOrders
confirm_for-ClosesOrder r reference amount o p db db' e =
    let paid_back : Payment = add_refunded_amount reference (amount_or amount r.amount_cents) p in
    let noted : Db = note_dispute r paid_back (save_payment paid_back db) in
    let kept : SameOrders db noted = note_dispute-SameOrders r paid_back db in
    let (d, ed, ed') =
      bind_ok (if closes_order r paid_back o then refund_order o r noted else ok noted) _ e in
    let same : SameOrders d db' = (ground arith, ground arith) in
    elim (if_closed o paid_back r noted d ed) [
      | inl h ↦
          inl (same.0 ∙ ap (λ x. x.orders) h ∙ kept.0, same.1 ∙ ap (λ x. x.history) h ∙ kept.1)
      | inr (c, h) ↦
          let (here, full, was) = closes_order_sound r reference amount o p c in
          inr (here, full, was, Refunded-SameOrders o db noted d db' kept h same)
    ]

-- Where the confirmation of a refund is recorded, either the rows of the orders and the status history
-- are as before, or the stored row of one order changed: that of the refund's order, which had been
-- paid or fulfilled and is now refunded, as the history tells. Then the refund had begun here, and
-- with the confirmed amount at least the whole amount of its payment is refunded.
pub confirm_refund-Confirmed :
    (r : Refund) (reference amount : Option ℕ) (db db' : Db)
    → confirm_refund r reference amount db ≡ ok db'
    → Confirmed r amount db db'
unfolding confirm_refund Confirmed
confirm_refund-Confirmed r reference amount db db' e = elim (Option-cases (db.orders r.order_id)) [
  | inl h ↦ absurd (ground arith)
  | inr (o, eo) ↦ elim (Option-cases (get_payment r.payment_id db)) [
    | inl h ↦ absurd (ground arith)
    | inr (p, ep) ↦ elim (confirm_for-ClosesOrder r reference amount o p db db' (ground arith)) [
      | inl h ↦ inl h
      | inr c ↦ inr (o, p, eo, ep, c)
    ]
  ]
]
