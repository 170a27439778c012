-- ===== src/Payments/Paid.antt =====
-- What the news that a payment succeeded does to the order: `_handle_payment_succeeded`.
use fast_api_e_commerce.Prelude.{
  ℕ, Bool, true, false, ◌&&◌, Option, none, some, List, [], ◌∷◌, ok, ◌≡◌, ◌≢◌, inl, inr, arith, any,
  find, pos, refl, Result-cases, Option-cases, ◌==◌,
}
use fast_api_e_commerce.Orders.Types.{Order, OrderStatus, paid, same_text}
use fast_api_e_commerce.Money.{to_stripe_amount}
use fast_api_e_commerce.Money.Payable.{to_stripe_amount_sound}
use fast_api_e_commerce.Lifecycle.Db.{
  Db, Payment, late_payment, get_payment, put_payment, save_payment, set_status,
}
use fast_api_e_commerce.Lifecycle.Documents.{reconcile, is_recorded}
use fast_api_e_commerce.Lifecycle.Once.{reconcile-is_recorded}
use fast_api_e_commerce.Lifecycle.Status.{mark_paid}
use fast_api_e_commerce.Payments.Rows.{
  Event, Env, Store, late_unreconciled, get_by_provider_payment_id, flag_payment,
}
use fast_api_e_commerce.Payments.Events.{
  config_differs, is_code, mismatch, settle, received, handle_payment_succeeded,
}

-- The event states the amount and the currency of the payment, in a currency that may be paid, it
-- comes from the payment's configuration where both name one, and the order is for that amount, and
-- for that currency where it has one.
pub record Verified (e : Event) (p : Payment) (o : Order) : Type 0 where
  pub same_config : (c d : ℕ) → e.config_id ≡ some c → p.provider_config_id ≡ some d → d ≡ c
  pub payable : to_stripe_amount (pos p.amount_cents) p.currency ≡ ok p.amount_cents
  pub amount : e.amount ≡ some p.amount_cents
  pub received_amount : (a : ℕ) → e.amount_received ≡ some a → a ≡ p.amount_cents
  pub currency : is_code e.currency p.currency ≡ true
  pub total : o.total_cents ≡ p.amount_cents
  pub order_currency : (c : List ℕ) → o.currency ≡ some c → same_text c p.currency ≡ true

pub mismatch-Verified :
    (e : Event) (p : Payment) (o : Order) (db : Db)
    → db.orders p.order_id ≡ some o
    → mismatch e p db ≡ none
    → Verified e p o
unfolding mismatch
mismatch-Verified e p o db h m =
    elim (Result-cases (to_stripe_amount (pos p.amount_cents) p.currency)) [
      | inl (x, n) ↦ absurd (ground arith)
      | inr (a, n) ↦
          let q = (to_stripe_amount_sound (pos p.amount_cents) p.currency n).0 in
          let r : a ≡ p.amount_cents = ground arith in
          record {
            same_config = λ c d hc hd. ground arith;
            payable = rw r at n;
            amount = ground arith;
            received_amount = λ b hb. ground arith;
            currency = ground arith;
            total = ground arith;
            order_currency = λ c hc. ground arith;
          }
    ]

-- a test of an optional value that passes where there is none
optional :
    {A : Type 0} (x : Option A) (test : A → Bool)
    → ((a : A) → x ≡ some a → test a ≡ true)
    → (elim x as (λ _. Bool) [ none ↦ true | some a ↦ test a ]) ≡ true
optional none test h = refl
optional (some a) test h = h a refl

same_config-differs :
    (e : Event) (p : Payment)
    → ((c d : ℕ) → e.config_id ≡ some c → p.provider_config_id ≡ some d → d ≡ c)
    → config_differs e p ≡ false
same_config-differs e p h = elim (Option-cases e.config_id) [
  | inl n ↦ ground arith
  | inr (c, n) ↦ elim (Option-cases p.provider_config_id) [
    | inl m ↦ ground arith
    | inr (d, m) ↦ ground (arith, h c d n m)
  ]
]

Verified-mismatch :
    (e : Event) (p : Payment) (o : Order) (db : Db)
    → db.orders p.order_id ≡ some o
    → Verified e p o
    → mismatch e p db ≡ none
unfolding mismatch
Verified-mismatch e p o db h v =
    let c = same_config-differs e p v.same_config in
    let r =
      optional e.amount_received (λ a. a == p.amount_cents)
        (λ a q. ground (arith, v.received_amount a q)) in
    let k = optional o.currency (λ t. same_text t p.currency) v.order_currency in
    let t = v.payable in let m = v.amount in let n = v.total in let u = v.currency in ground arith

settle-orders :
    (p : Payment) (s : Store) (o : Order)
    → s.db.orders p.order_id ≡ some o
    → o.id ≡ p.order_id
    → (o.status ≢ OrderStatus.pending → (settle p s).db.orders ≡ s.db.orders)
      × (o.status ≡ OrderStatus.pending
          → (o' : Order) × ((settle p s).db.orders p.order_id ≡ some o')
            × (o'.status ≡ paid)
            × (any (λ i. i == o.id) (settle p s).confirmations ≡ true))
unfolding settle mark_paid set_status flag_payment reconcile
settle-orders p s o h i = (
  λ n. ground arith,
  λ n. (
    record o { status = paid; paid_in_demo_mode = p.provider_is_demo },
    ground arith,
    refl,
    ground arith,
  ),
)

find-put_payment :
    (ps : List Payment) (id provider : ℕ) (p new : Payment)
    → new.id ≡ p.id
    → find (λ q. q.provider_payment_id == id && q.provider == provider) ps ≡ some p
    → find (λ q. q.id == p.id) (put_payment new ps) ≡ some new
find-put_payment [] id provider p new h e = absurd (ground arith)
find-put_payment (q ∷ qs) id provider p new h e =
    ground (arith, find-put_payment qs id provider p new h)

get-save_payment :
    (id : Option ℕ) (provider : ℕ) (p new : Payment) (db : Db)
    → new.id ≡ p.id
    → get_by_provider_payment_id id provider db ≡ some p
    → get_payment p.id (save_payment new db) ≡ some new
get-save_payment none provider p new db h e = absurd (ground arith)
get-save_payment (some i) provider p new db h e = find-put_payment db.payments i provider p new h e

-- the rows when the order is looked at: the payment's has succeeded
abbrev pub with_received : Event → Payment → Store → Store
with_received e p s = record s { db = save_payment (received e p) s.db }

handle-Verified :
    (env : Env) (e : Event) (s : Store) (p : Payment) (o : Order)
    → get_by_provider_payment_id e.provider_payment_id e.provider s.db ≡ some p
    → s.db.orders p.order_id ≡ some o
    → Verified e p o
    → handle_payment_succeeded env e s ≡ settle (received e p) (with_received e p s)
unfolding handle_payment_succeeded
handle-Verified env e s p o h i v =
    rw (h, Verified-mismatch e p o s.db i v, handle_payment_succeeded) refl

handle_flagged :
    (env : Env) (e : Event) (s : Store) (p : Payment) (o : Order)
    → get_by_provider_payment_id e.provider_payment_id e.provider s.db ≡ some p
    → s.db.orders p.order_id ≡ some o
    → ¬ Verified e p o
    → (handle_payment_succeeded env e s).db.orders ≡ s.db.orders
unfolding handle_payment_succeeded flag_payment reconcile
handle_flagged env e s p o h i n = elim (Option-cases (mismatch e p s.db)) [
  | inl m ↦ absurd (n (mismatch-Verified e p o s.db i m))
  | inr (x, m) ↦ ground arith
]

-- Where a success is reported of a known payment, whose order is there: if the order is pending, it
-- becomes paid, and its confirmation email is queued, where the event is verified against the payment
-- and the order. No order changes where the order is not pending, or the event is not verified.
pub handle_payment_succeeded-paid :
    (env : Env) (e : Event) (s : Store) (p : Payment) (o : Order)
    → get_by_provider_payment_id e.provider_payment_id e.provider s.db ≡ some p
    → s.db.orders p.order_id ≡ some o
    → o.id ≡ p.order_id
    → (Verified e p o
        → o.status ≡ OrderStatus.pending
        → (o' : Order) × ((handle_payment_succeeded env e s).db.orders p.order_id ≡ some o')
          × (o'.status ≡ paid)
          × (any (λ i. i == o.id) (handle_payment_succeeded env e s).confirmations ≡ true))
      × (¬ Verified e p o → (handle_payment_succeeded env e s).db.orders ≡ s.db.orders)
      × (Verified e p o
          → o.status ≢ OrderStatus.pending
          → (handle_payment_succeeded env e s).db.orders ≡ s.db.orders)
handle_payment_succeeded-paid env e s p o h i k = (
  λ v n.
      rw (handle-Verified env e s p o h i v)
        ((settle-orders (received e p) (with_received e p s) o i k).1 n),
  λ n. handle_flagged env e s p o h i n,
  λ v n.
      rw (handle-Verified env e s p o h i v)
        ((settle-orders (received e p) (with_received e p s) o i k).0 n),
)

settle_late :
    (p : Payment) (s : Store) (o : Order)
    → s.db.orders p.order_id ≡ some o
    → o.status ≢ OrderStatus.pending
    → settle p s ≡ flag_payment late_unreconciled late_payment p s
unfolding settle flag_payment
settle_late p s o h n = ground arith

-- A verified success of a payment whose order is no longer pending: the payment is recorded as
-- succeeded, and a reconciliation record of a late payment stands for it; the orders, the queued
-- confirmations, the refunds and the stock are as they were.
pub handle_payment_succeeded_late :
    (env : Env) (e : Event) (s : Store) (p : Payment) (o : Order)
    → get_by_provider_payment_id e.provider_payment_id e.provider s.db ≡ some p
    → s.db.orders p.order_id ≡ some o
    → Verified e p o
    → o.status ≢ OrderStatus.pending
    → let s' = handle_payment_succeeded env e s in
      (get_payment p.id s'.db ≡ some (received e p))
      × (is_recorded late_payment p.id s'.db.reconciliations ≡ true)
      × (s'.db.orders ≡ s.db.orders)
      × (s'.confirmations ≡ s.confirmations)
      × (s'.db.refunds ≡ s.db.refunds)
      × (s'.db.products ≡ s.db.products)
      × (s'.db.variants ≡ s.db.variants)
unfolding flag_payment
handle_payment_succeeded_late env e s p o h i v n =
    let t = with_received e p s in
    let q = handle-Verified env e s p o h i v in
    let l = settle_late (received e p) t o i n in
    let saved = get-save_payment e.provider_payment_id e.provider p (received e p) s.db refl h in
    rw (q, l)
      (
        unfold reconcile in ground (arith, saved),
        reconcile-is_recorded late_payment p.id (some p.id) (some p.order_id) t.db,
        unfold reconcile in ground arith,
        refl,
        unfold reconcile in ground arith,
        unfold reconcile in ground arith,
        unfold reconcile in ground arith,
      )
