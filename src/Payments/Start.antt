-- ===== src/Payments/Start.antt =====
-- The start of a payment: `create_payment_for_order` of
-- app/modules/payments/services/payment_service.py and what it calls, for an order that the caller may
-- pay (Orders/Access). The refusal of live keys from the environment is left out.
--
-- A payment provider is its capabilities and its answers, which are parameters; the cancellations that
-- are asked of one are kept in the state. So is what other
-- transactions commit in each of the waits for a provider, when no row is locked.
use fast_api_e_commerce.Prelude.{
  ℕ, Bool, true, false, not, ◌&&◌, Option, none, some, List, ◌∷◌, Result, ok, err, ◌>>=◌, ◌>>◌,
  raise_if, ◌==◌, if◌then◌else◌, any, find, length, pos,
}
use fast_api_e_commerce.Orders.Types.{Order, OrderStatus, same_status, Text, same_text}
use fast_api_e_commerce.Money.{MoneyError, get_currency, to_stripe_amount}
use fast_api_e_commerce.Lifecycle.Db.{
  Db, Payment, PaymentStatus, payments_of, get_payment, save_payment, orphan_uncertain,
}
use fast_api_e_commerce.Lifecycle.Status.{is_succeeded, is_pending}
use fast_api_e_commerce.Payments.Rows.{
  Store, orphan_intent, get_by_provider_payment_id, flag_unknown,
}

-- `open_intent` is a status of `OPEN_INTENT_STATUSES`
pub data IntentStatus : Type 0 where
  succeeded_intent open_intent ended_intent : IntentStatus

-- `PaymentIntentResult`
pub record Intent : Type 0 where
  pub provider_payment_id : ℕ
  pub client_secret : ℕ
  pub status : IntentStatus

-- `PaymentProvider`: a call that raises answers `none`, and a cancellation that returns answers the
-- intent's final status, which may be that it succeeded. An
-- idempotency key is the order's id and the number of its attempt.
pub record Provider : Type 0 where
  pub name : ℕ
  pub is_demo : Bool
  pub by_reference : Bool
  pub supports_cancel : Bool
  pub supports_currency : Text → Bool
  pub create_payment_intent : ℕ → Text → ℕ → ℕ × ℕ → Option Intent
  pub retrieve_payment_intent : ℕ → Option Intent
  pub cancel_payment_intent : ℕ → Option IntentStatus

pub data PayError : Type 0 where
  order_missing order_not_payable payment_inconsistent currency_refused provider_failed : PayError
  payment_row_missing integrity_error provider_unavailable : PayError

-- `select_provider` is `_select_provider`, with the id of the stored configuration, if it is one;
-- `provider_for` is `_provider_for_ref` of a payment.
pub record World : Type 0 where
  pub select_provider : Text → Result PayError (Provider × Option ℕ)
  pub provider_for : Payment → Provider
  pub enabled_currency : Text → Bool
  pub asked : Store → Store
  pub created : Store → Store

pub record Plan : Type 0 where
  pub currency : Text
  pub stripe_amount : ℕ
  pub total : ℕ
  pub reuse : Option Payment
  pub provider : Provider
  pub config_id : Option ℕ
  pub key : ℕ × ℕ

abbrev pub as_refused : {A : Type 0} → Result MoneyError A → Result PayError A
as_refused (ok a) = ok a
as_refused (err _) = err currency_refused

-- `_assert_order_payable`, on the order that is locked
abbrev pub lock_payable : ℕ → Store → Result PayError Order
lock_payable id s = elim (s.db.orders id) [
  | none ↦ err order_missing
  | some o ↦ if same_status o.status OrderStatus.pending then ok o else err order_not_payable
]

-- the code of the currency; without a stored configuration it is also `_assert_currency_payable`
unfoldable pub payable_currency : World → Provider → Option ℕ → Text → Result PayError Text
unfolding get_currency
payable_currency w provider config_id code = do
  c ← as_refused (get_currency code)
  elim config_id [
    | some _ ↦ ok c.code
    | none ↦
        if provider.supports_currency c.code && w.enabled_currency c.code
        then ok c.code
        else err currency_refused
  ]

abbrev pub is_reusable : PaymentStatus → Bool
is_reusable PaymentStatus.pending = true
is_reusable PaymentStatus.failed = true
is_reusable _ = false

abbrev pub differs : Option Payment → Text → ℕ → Bool
differs none currency total = false
differs (some p) currency total = not (same_text p.currency currency && p.amount_cents == total)

-- the plan, once the provider, the currency and the amount in its minor units are known
unfoldable pub plan_with : Order → Provider → Option ℕ → Text → ℕ → Store → Result PayError Plan
plan_with o provider config_id currency amount s = do
  let existing = payments_of o.id s.db
  raise_if (any (λ p. is_succeeded p.status) existing) order_not_payable
  let reusable = find (λ p. is_reusable p.status) existing
  raise_if (differs reusable currency o.total_cents) payment_inconsistent
  ok (record {
    currency = currency;
    stripe_amount = amount;
    total = o.total_cents;
    reuse = reusable;
    provider = provider;
    config_id = config_id;
    key = (o.id, length existing);
  })

-- the plan for the order's own currency
unfoldable pub plan_in : World → Order → Option Text → Store → Result PayError Plan
unfolding payable_currency to_stripe_amount plan_with
plan_in w o none s = err order_not_payable
plan_in w o (some code) s = w.select_provider code >>= λ selected.
    payable_currency w selected.0 selected.1 code >>= λ currency.
    as_refused (to_stripe_amount (pos o.total_cents) currency) >>= λ amount.
    plan_with o selected.0 selected.1 currency amount s

-- `_plan_payment`
unfoldable pub plan_payment : World → ℕ → Store → Result PayError Plan
unfolding plan_in
plan_payment w order_id s = lock_payable order_id s >>= λ o. plan_in w o o.currency s

-- the cancellation is asked of the provider
abbrev pub ask_to_cancel : Provider → ℕ → Store → Store
ask_to_cancel provider id s = record s { cancel_requests = (provider.name, id) ∷ s.cancel_requests }

-- `_cancel_orphan_intent`: the status that a cancellation returns is not read
unfoldable pub cancel_orphan_intent : Provider → ℕ → ℕ → Store → Store
unfolding flag_unknown
cancel_orphan_intent provider id order_id s =
    if not provider.supports_cancel
    then flag_unknown orphan_intent orphan_uncertain (some id) (some order_id) s
    else elim (provider.cancel_payment_intent id) [
      | some _ ↦ ask_to_cancel provider id s
      | none ↦
          flag_unknown orphan_intent orphan_uncertain (some id) (some order_id)
            (ask_to_cancel provider id s)
    ]

abbrev is_open_intent : IntentStatus → Bool
is_open_intent open_intent = true
is_open_intent _ = false

-- the payment that another request recorded meanwhile, with its own secret
abbrev winner_of : World → Payment → Result PayError (Payment × ℕ)
winner_of w p = elim ((w.provider_for p).retrieve_payment_intent p.provider_payment_id) [
  | none ↦ err provider_failed
  | some i ↦ if is_open_intent i.status then ok (p, i.client_secret) else err order_not_payable
]

abbrev pub new_payment : ℕ → Plan → Intent → Db → Payment
new_payment order_id plan intent db = record {
  id = length db.payments;
  order_id = order_id;
  provider = plan.provider.name;
  provider_is_demo = plan.provider.is_demo;
  by_reference = plan.provider.by_reference;
  provider_config_id = plan.config_id;
  provider_payment_id = intent.provider_payment_id;
  provider_reference = none;
  status = PaymentStatus.pending;
  amount_cents = plan.total;
  currency = plan.currency;
  provider_refund_id = none;
  refunded_amount_cents = 0;
}

-- what follows the provider's answer to `create_payment_intent`, on the rows as they now are
unfoldable pub record_intent :
    World → ℕ → Plan → Intent → Store → Result PayError (Payment × ℕ) × Store
unfolding cancel_orphan_intent
record_intent w order_id plan intent s =
    let retired : Store =
      cancel_orphan_intent plan.provider intent.provider_payment_id order_id s in
    let payments : List Payment = payments_of order_id s.db in
    elim (lock_payable order_id s) [
      | err order_missing ↦ (err order_missing, s)
      | err e ↦ (err e, retired)
      | ok o ↦
          if any (λ p. is_succeeded p.status) payments
          then (err order_not_payable, retired)
          else elim (get_by_provider_payment_id (some intent.provider_payment_id) plan.provider.name
              s.db) [
                | some existing ↦ (ok (existing, intent.client_secret), s)
                | none ↦ elim (find (λ p. is_pending p.status) payments) [
                  | some winner ↦ (winner_of w winner, retired)
                  | none ↦
                      let p : Payment = new_payment order_id plan intent s.db in
                      (
                        ok (p, intent.client_secret),
                        record s { db = record s.db { payments = p ∷ s.db.payments } },
                      )
                ]
              ]
    ]

-- `_create_new_payment`
unfoldable pub create_new_payment : World → ℕ → Plan → Store → Result PayError (Payment × ℕ) × Store
unfolding record_intent
create_new_payment w order_id plan s =
    elim (plan.provider.create_payment_intent plan.stripe_amount plan.currency order_id plan.key) [
      | none ↦ (err provider_failed, s)
      | some intent ↦ record_intent w order_id plan intent (w.created s)
    ]

-- the payment is pending again; no order has two pending payments (a unique index)
abbrev reopen : Payment → Store → Result PayError Store
reopen p s =
    if is_pending p.status
    then ok s
    else if any (λ q. is_pending q.status) (payments_of p.order_id s.db)
    then err integrity_error
    else ok (record s { db = save_payment (record p { status = PaymentStatus.pending }) s.db })

-- `create_payment_for_order` from the provider's answer on, where a payment is to be continued; s is
-- the rows as they now are. What it writes before it raises is rolled back with the request.
unfoldable pub continue_payment :
    World → ℕ → Plan → Payment → Intent → Store → Result PayError (Payment × ℕ) × Store
unfolding create_new_payment
continue_payment w order_id plan reused intent s = elim (lock_payable order_id s) [
  | err e ↦ (err e, s)
  | ok o ↦ elim (get_payment reused.id s.db) [
    | none ↦ (err payment_row_missing, s)
    | some p ↦ elim intent.status [
      | succeeded_intent ↦ (err order_not_payable, s)
      | open_intent ↦ elim (reopen p s) [
        | err e ↦ (err e, s)
        | ok s' ↦ (ok (record p { status = PaymentStatus.pending }, intent.client_secret), s')
      ]
      | ended_intent ↦
          create_new_payment w order_id plan
            (record s { db = save_payment (record p { status = PaymentStatus.failed }) s.db })
    ]
  ]
]

-- `create_payment_for_order`, of an order that the caller may pay
unfoldable pub create_payment_for_order : World → ℕ → Store → Result PayError (Payment × ℕ) × Store
unfolding plan_payment create_new_payment continue_payment
create_payment_for_order w order_id s = elim (plan_payment w order_id s) [
  | err e ↦ (err e, s)
  | ok plan ↦ elim plan.reuse [
    | none ↦ create_new_payment w order_id plan s
    | some p ↦ elim ((w.provider_for p).retrieve_payment_intent p.provider_payment_id) [
      | none ↦ (err provider_failed, s)
      | some intent ↦ continue_payment w order_id plan p intent (w.asked s)
    ]
  ]
]
