-- ===== src/Payments/Started.antt =====
-- What the start of a payment asks the customer to pay, and what becomes of each intent.
use fast_api_e_commerce.Prelude.{
  ℕ, true, false, ◌||◌, ◌<◌, Option, none, some, List, [], ◌∷◌, Result, ok, err, ◌≡◌, ◌⊎◌, inl, inr,
  refl, arith, any, find, pos, is_some, Option-cases, Bool-cases, bind_ok,
}
use fast_api_e_commerce.Orders.Types.{Order, OrderStatus, same_status, Text}
use fast_api_e_commerce.Money.{MoneyError, to_stripe_amount}
use fast_api_e_commerce.Money.Payable.{to_stripe_amount_sound}
use fast_api_e_commerce.Lifecycle.Db.{Payment, PaymentStatus, payments_of, orphan_uncertain}
use fast_api_e_commerce.Lifecycle.Documents.{is_recorded, reconcile}
use fast_api_e_commerce.Lifecycle.Once.{reconcile-is_recorded}
use fast_api_e_commerce.Lifecycle.Status.{is_succeeded, is_pending}
use fast_api_e_commerce.Payments.Rows.{Store, flag_unknown, get_by_provider_payment_id}
use fast_api_e_commerce.Payments.Start.{
  Intent, Provider, World, Plan, lock_payable, payable_currency, as_refused, plan_with, plan_in,
  plan_payment, cancel_orphan_intent, new_payment, record_intent,
}

-- From s to s', the cancellation of the intent was asked of its provider and the call returned, and
-- nothing else changed; or a reconciliation record stands for it. In both cases no payment and no
-- order changed.
abbrev pub IsRetired : Provider → ℕ → Store → Store → Type 0
IsRetired provider id s s' =
    (s'.db.payments ≡ s.db.payments)
    × (s'.db.orders ≡ s.db.orders)
    × (((s' ≡ record s { cancel_requests = (provider.name, id) ∷ s.cancel_requests })
          × (provider.supports_cancel ≡ true)
          × (is_some (provider.cancel_payment_intent id) ≡ true))
        ⊎ (is_recorded orphan_uncertain id s'.db.reconciliations ≡ true))

cancel_orphan_intent-IsRetired :
    (provider : Provider) (id order_id : ℕ) (s : Store)
    → IsRetired provider id s (cancel_orphan_intent provider id order_id s)
unfolding cancel_orphan_intent flag_unknown reconcile
cancel_orphan_intent-IsRetired provider id order_id s =
    let told = reconcile-is_recorded orphan_uncertain id none (some order_id) s.db in
    elim (Bool-cases provider.supports_cancel) [
      | inr h ↦ (ground arith, ground arith, inr (ground (arith, told)))
      | inl h ↦ elim (Option-cases (provider.cancel_payment_intent id)) [
        | inl g ↦ (ground arith, ground arith, inr (ground (arith, told)))
        | inr (i, g) ↦ (ground arith, ground arith, inl (ground arith, h, ground arith))
      ]
    ]

-- the state after the intent was retired
abbrev retired : ℕ → Plan → Intent → Store → Store
retired order_id plan intent s =
    cancel_orphan_intent plan.provider intent.provider_payment_id order_id s

abbrev pub own_payment : Plan → Intent → Store → Option Payment
own_payment plan intent s =
    get_by_provider_payment_id (some intent.provider_payment_id) plan.provider.name s.db

none_left :
    (ps : List Payment)
    → any (λ p. is_succeeded p.status) ps ≡ false
    → find (λ p. is_pending p.status) ps ≡ none
    → any (λ p. is_succeeded p.status || is_pending p.status) ps ≡ false
none_left [] a f = refl
none_left (p ∷ ps) a f = ground (arith, none_left ps)

-- how `record_intent` ends, for an order that is there
record_intent_cases :
    (w : World) (order_id : ℕ) (plan : Plan) (intent : Intent) (s : Store) (o : Order)
    → s.db.orders order_id ≡ some o
    → let r = record_intent w order_id plan intent s in
      ((p : Payment) × (r ≡ (ok (p, intent.client_secret), s))
        × (own_payment plan intent s ≡ some p))
      ⊎ ((r.1 ≡ retired order_id plan intent s)
          ⊎ ((o.status ≡ OrderStatus.pending)
              × (any (λ p. is_succeeded p.status) (payments_of order_id s.db) ≡ false)
              × (find (λ p. is_pending p.status) (payments_of order_id s.db) ≡ none)
              × (r.0 ≡ ok (new_payment order_id plan intent s.db, intent.client_secret))
              × (r.1.db.payments ≡ new_payment order_id plan intent s.db ∷ s.db.payments)))
unfolding record_intent
record_intent_cases w order_id plan intent s o h =
    elim (Bool-cases (same_status o.status OrderStatus.pending)) [
      | inr n ↦ inr (inl (ground arith))
      | inl n ↦ elim (Bool-cases (any (λ p. is_succeeded p.status) (payments_of order_id s.db))) [
        | inl a ↦ inr (inl (ground arith))
        | inr a ↦ elim (Option-cases (own_payment plan intent s)) [
          | inr (p, g) ↦ inl (p, ground arith, g)
          | inl g ↦
              elim (Option-cases (find (λ p. is_pending p.status) (payments_of order_id s.db))) [
                | inr (q, f) ↦ inr (inl (ground arith))
                | inl f ↦ inr (inr (ground arith, a, f, ground arith, ground arith))
              ]
        ]
      ]
    ]

-- An intent that was created, for an order that is still there, does not get lost: its secret is
-- returned with a payment that had its id before, and nothing changes; or no payment and no order
-- changes, and either the cancellation of the intent was asked of its provider and that call returned,
-- or a reconciliation record stands for the intent; or the order is pending with no payment that
-- succeeded or is pending, and its secret is returned with a new pending payment of the planned total
-- and currency, under the intent's id, which is the one row that is added to the payments.
pub record_intent_kept :
    (w : World) (order_id : ℕ) (plan : Plan) (intent : Intent) (s : Store) (o : Order)
    → s.db.orders order_id ≡ some o
    → let r = record_intent w order_id plan intent s in
      ((p : Payment) × (r ≡ (ok (p, intent.client_secret), s))
        × (own_payment plan intent s ≡ some p))
      ⊎ (IsRetired plan.provider intent.provider_payment_id s r.1
          ⊎ ((p : Payment) × (o.status ≡ OrderStatus.pending)
              × (any (λ q. is_succeeded q.status || is_pending q.status) (payments_of order_id s.db)
                  ≡ false)
              × (r.0 ≡ ok (p, intent.client_secret))
              × (r.1.db.payments ≡ p ∷ s.db.payments)
              × (p.status ≡ PaymentStatus.pending)
              × (p.amount_cents ≡ plan.total)
              × (p.currency ≡ plan.currency)
              × (own_payment plan intent r.1 ≡ some p)))
record_intent_kept w order_id plan intent s o h =
    elim (record_intent_cases w order_id plan intent s o h) [
      | inl e ↦ inl e
      | inr (inl q) ↦ inr (
          inl (
            rw q
              (cancel_orphan_intent-IsRetired plan.provider intent.provider_payment_id order_id s)))
      | inr (inr (n, a, f, q, l)) ↦ inr (
          inr (
            new_payment order_id plan intent s.db,
            n,
            none_left (payments_of order_id s.db) a f,
            q,
            l,
            refl,
            refl,
            refl,
            ground arith,
          ))
    ]

-- what is asked for an order, beside the rows s
pub record IsPlan (o : Order) (s : Store) (plan : Plan) : Type 0 where
  pub total : plan.total ≡ o.total_cents
  pub stripe_amount : plan.stripe_amount ≡ o.total_cents
  pub positive : 0 < o.total_cents
  pub unpaid : any (λ p. is_succeeded p.status) (payments_of o.id s.db) ≡ false
  pub reuse : (p : Payment) → plan.reuse ≡ some p → p.amount_cents ≡ o.total_cents

plan_with-IsPlan :
    (o : Order) (provider : Provider) (config_id : Option ℕ) (currency : Text) (amount : ℕ)
    (s : Store) (plan : Plan)
    → to_stripe_amount (pos o.total_cents) currency ≡ ok amount
    → plan_with o provider config_id currency amount s ≡ ok plan
    → IsPlan o s plan
unfolding plan_with
plan_with-IsPlan o provider config_id currency amount s plan t e =
    let (q, h, _, _) = to_stripe_amount_sound (pos o.total_cents) currency t in
    let r : amount ≡ o.total_cents = ground arith in
    record {
      total = ground arith;
      stripe_amount = ground arith;
      positive = ground arith;
      unpaid = ground arith;
      reuse = λ p f. ground arith;
    }

as_refused_ok : {A : Type 0} (m : Result MoneyError A) (a : A) → as_refused m ≡ ok a → m ≡ ok a
as_refused_ok (ok b) a e = ground arith
as_refused_ok (err x) a e = absurd (ground arith)

plan_in-IsPlan :
    (w : World) (o : Order) (code : Option Text) (s : Store) (plan : Plan)
    → plan_in w o code s ≡ ok plan
    → IsPlan o s plan
unfolding plan_in
plan_in-IsPlan w o none s plan e = absurd (ground arith)
plan_in-IsPlan w o (some code) s plan e =
    let (selected, h, e1) = bind_ok (w.select_provider code) _ e in
    let (currency, k, e2) = bind_ok (payable_currency w selected.0 selected.1 code) _ e1 in
    let (amount, t, e3) =
      bind_ok (as_refused (to_stripe_amount (pos o.total_cents) currency)) _ e2 in
    plan_with-IsPlan o selected.0 selected.1 currency amount s plan
      (as_refused_ok (to_stripe_amount (pos o.total_cents) currency) amount t) e3

-- A planned payment is of a pending order that no payment of it has paid. It is for the order's total,
-- which is positive, in the provider's minor units too, and a payment that is to be continued is for
-- that total.
pub plan_payment_sound :
    (w : World) (order_id : ℕ) (s : Store) (plan : Plan)
    → plan_payment w order_id s ≡ ok plan
    → (o : Order) × (s.db.orders order_id ≡ some o)
      × (o.status ≡ OrderStatus.pending)
      × IsPlan o s plan
unfolding plan_payment
plan_payment_sound w order_id s plan e =
    let (o, l, f) = bind_ok (lock_payable order_id s) _ e in
    (o, ground arith, ground arith, plan_in-IsPlan w o o.currency s plan f)
