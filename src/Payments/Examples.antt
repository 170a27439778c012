-- ===== src/Payments/Examples.antt =====
-- Deliveries to the shop of the lifecycle's examples.
use mathlib.Core.List.{Memᴰ}
use fast_api_e_commerce.Prelude.{
  ℕ, true, false, ◌||◌, none, some, [], ◌∷◌, ok, err, ◌≡◌, ◌≢◌, ◌⊎◌, refl, arith, select, any, ◌==◌,
  if◌then◌else◌, is_some,
}
use fast_api_e_commerce.Orders.Types.{Order, OrderStatus, paid, cancelled}
use fast_api_e_commerce.Money.{inr, to_stripe_amount, get_currency}
use fast_api_e_commerce.Lifecycle.Db.{
  order_not_found, Refund, RefundStatus, Payment, PaymentStatus, payments_of, late_payment,
  get_payment,
}
use fast_api_e_commerce.Lifecycle.Documents.{is_recorded}
use fast_api_e_commerce.Lifecycle.Status.{is_succeeded, is_pending}
use fast_api_e_commerce.Lifecycle.Reports.{reported_succeeded, reported_other}
use fast_api_e_commerce.Lifecycle.Examples.{shop, pending_order, payment_of}
use fast_api_e_commerce.Payments.Rows.{Event, Env, Store, Deferred, waiting, claim}
use fast_api_e_commerce.Payments.Events.{handle_payment_succeeded, mismatch, received}
use fast_api_e_commerce.Payments.Webhooks.{
  succeeded_event, refund_prefix, mark_webhook_verified, deliver, Config, Verifier,
  invalid_signature, verify_webhook,
}
use fast_api_e_commerce.Payments.History.{start}
use fast_api_e_commerce.Payments.Delivery.{IsDuplicate, deliver_once, deliver_failed}
use fast_api_e_commerce.Payments.Paid.{
  Verified, mismatch-Verified, handle_payment_succeeded-paid, handle_payment_succeeded_late,
}
use fast_api_e_commerce.Payments.Start.{
  Intent, open_intent, ended_intent, Provider, World, Plan, plan_payment, record_intent,
}
use fast_api_e_commerce.Payments.Started.{
  IsPlan, plan_payment_sound, own_payment, IsRetired, record_intent_kept,
}
use fast_api_e_commerce.Payments.Recovery.{reprocess_row}
use fast_api_e_commerce.Payments.Counted.{Counted, reprocess_row-Counted}
use fast_api_e_commerce.Payments.Verified.{SignedBy, verify_webhook_sound}

abbrev store : Store
store = record {
  db = shop;
  webhook_events = [];
  deferred = [];
  confirmations = [];
  flags = [];
  verified_configs = [];
  cancel_requests = [];
}

abbrev env : Env
env = record {
  recovery_interval_seconds = 60;
  recovery_window_minutes = 60;
  recovery_max_attempts = 5;
  now = 1000;
}

abbrev success : Event
success = record {
  event_id = 900;
  event_type = succeeded_event;
  provider_payment_id = some 100;
  amount = some 26960;
  amount_received = some 26960;
  currency = some inr;
  provider_refund_id = none;
  refund_status = reported_other;
  provider_dispute_id = none;
  dispute_status = [];
  provider = 1;
  provider_reference = none;
  config_id = some 3;
}

abbrev paid_store : Store
unfolding deliver to_stripe_amount get_currency
paid_store = (deliver env success store).1

deliver_once_example :
    deliver env (record success { amount = some 1 }) paid_store
    ≡ (ok tt, mark_webhook_verified (some 3) paid_store)
unfolding deliver to_stripe_amount get_currency
deliver_once_example =
    deliver_once 5 env env success (record success { amount = some 1 }) store paid_store paid_store
      refl start refl refl

-- the order of this refund is gone
abbrev lost_refund : Refund
lost_refund = record {
  id = 0;
  payment_id = 2;
  order_id = 2;
  amount_cents = 26960;
  currency = inr;
  status = RefundStatus.requested;
  provider_refund_id = some 77;
  attempt_number = 0;
  attempts = 1;
  cancels_order = false;
  started_here = true;
}

abbrev broken_store : Store
broken_store = record store { db = record shop { orders = λ _. none; refunds = lost_refund ∷ [] } }

abbrev refund_event : Event
refund_event = record success {
  event_type = refund_prefix;
  provider_refund_id = some 77;
  refund_status = reported_succeeded;
}

abbrev failed_store : Store
unfolding deliver
failed_store = (deliver env refund_event broken_store).1

deliver_failed_example :
    (failed_store ≡ record broken_store { webhook_events = failed_store.webhook_events })
    × ((p j : ℕ) → IsDuplicate p j broken_store → IsDuplicate p j failed_store)
    × (is_some (claim 1 900 failed_store.webhook_events) ≡ true)
unfolding deliver
deliver_failed_example =
    deliver_failed env refund_event order_not_found broken_store failed_store refl

abbrev paying : Payment
paying = payment_of 1 PaymentStatus.pending

verified : Verified success paying pending_order
unfolding mismatch to_stripe_amount get_currency
verified = mismatch-Verified success paying pending_order shop refl refl

handle_payment_succeeded-paid_example :
    (Verified success paying pending_order
      → pending_order.status ≡ OrderStatus.pending
      → (o' : Order) × ((handle_payment_succeeded env success store).db.orders 1 ≡ some o')
        × (o'.status ≡ paid)
        × (any (λ i. i == 1) (handle_payment_succeeded env success store).confirmations ≡ true))
    × (¬ Verified success paying pending_order
        → (handle_payment_succeeded env success store).db.orders ≡ shop.orders)
    × (Verified success paying pending_order
        → pending_order.status ≢ OrderStatus.pending
        → (handle_payment_succeeded env success store).db.orders ≡ shop.orders)
handle_payment_succeeded-paid_example =
    handle_payment_succeeded-paid env success store paying pending_order refl refl refl

-- the same payment, of an order that has expired
abbrev expired_order : Order
expired_order = record pending_order { status = cancelled }

abbrev late_store : Store
late_store = record store { db = record shop { orders = λ _. some expired_order } }

Verified-late : Verified success paying expired_order
unfolding mismatch to_stripe_amount get_currency
Verified-late = mismatch-Verified success paying expired_order late_store.db refl refl

handle_payment_succeeded_late_example :
    let s' = handle_payment_succeeded env success late_store in
    (get_payment 1 s'.db ≡ some (received success paying))
    × (is_recorded late_payment 1 s'.db.reconciliations ≡ true)
    × (s'.db.orders ≡ late_store.db.orders)
    × (s'.confirmations ≡ [])
    × (s'.db.refunds ≡ [])
    × (s'.db.products ≡ shop.products)
    × (s'.db.variants ≡ shop.variants)
handle_payment_succeeded_late_example =
    handle_payment_succeeded_late env success late_store paying expired_order refl refl
      Verified-late (λ h. absurd (ground arith))

-- an event of a payment that is not known yet
abbrev early : Event
early = record success { provider_payment_id = some 555 }

abbrev deferred_store : Store
unfolding deliver
deferred_store = (deliver env early store).1

abbrev deferred_row : Deferred
deferred_row = record {
  event = record early { provider_reference = none; config_id = none };
  status = waiting;
  attempts = 0;
  next_attempt_at = 1060;
  expires_at = 4600;
}

reprocess_row-Counted_example :
    Counted env deferred_row (reprocess_row env deferred_row deferred_store)
unfolding deliver
reprocess_row-Counted_example = reprocess_row-Counted env deferred_row deferred_store refl

-- a secret accepts the payloads that equal it
abbrev secret_of : ℕ → Verifier ℕ
secret_of secret payload = if payload == secret then ok success else err invalid_signature

abbrev rotated : Config ℕ
rotated = record {
  id = 3;
  provider = 1;
  secret = some (secret_of 8);
  previous_secret = some (secret_of 7);
}

verify_webhook_sound_example :
    ((c : Config ℕ) × Memᴰ c (rotated ∷ []) × (c.provider ≡ 1) × SignedBy 1 7 success c)
    ⊎ ((select (λ c. c.provider == 1) (rotated ∷ []) ≡ [])
        × (◌≡◌ {A = ℕ} 1 1)
        × (secret_of 9 7 ≡ ok success))
unfolding verify_webhook
verify_webhook_sound_example = verify_webhook_sound (rotated ∷ []) 1 (secret_of 9) 1 7 success refl

-- the intent 200, in a shop whose order has no payment yet
abbrev unpaid_store : Store
unpaid_store = record store { db = record shop { payments = [] } }

abbrev intent : Intent
intent = record { provider_payment_id = 200; client_secret = 42; status = open_intent }

abbrev gateway : Provider
gateway = record {
  name = 1;
  is_demo = false;
  by_reference = false;
  supports_cancel = true;
  supports_currency = λ _. true;
  create_payment_intent = λ _ _ _ _. some intent;
  retrieve_payment_intent = λ _. some intent;
  cancel_payment_intent = λ _. some ended_intent;
}

abbrev world : World
world = record {
  select_provider = λ _. ok (gateway, none);
  provider_for = λ _. gateway;
  enabled_currency = λ _. true;
  asked = λ s. s;
  created = λ s. s;
}

abbrev plan : Plan
plan = record {
  currency = inr;
  stripe_amount = 26960;
  total = 26960;
  reuse = none;
  provider = gateway;
  config_id = none;
  key = (1, 0);
}

plan_payment_sound_example :
    (o : Order) × (unpaid_store.db.orders 1 ≡ some o)
    × (o.status ≡ OrderStatus.pending)
    × IsPlan o unpaid_store plan
unfolding plan_payment to_stripe_amount get_currency
plan_payment_sound_example = plan_payment_sound world 1 unpaid_store plan refl

record_intent_kept_example :
    let r = record_intent world 1 plan intent unpaid_store in
    ((p : Payment) × (r ≡ (ok (p, 42), unpaid_store))
      × (own_payment plan intent unpaid_store ≡ some p))
    ⊎ (IsRetired gateway 200 unpaid_store r.1
        ⊎ ((p : Payment) × (OrderStatus.pending ≡ OrderStatus.pending)
            × (any
                  (λ q. is_succeeded q.status || is_pending q.status)
                  (payments_of 1 unpaid_store.db)
                ≡ false)
            × (r.0 ≡ ok (p, 42))
            × (r.1.db.payments ≡ p ∷ [])
            × (p.status ≡ PaymentStatus.pending)
            × (p.amount_cents ≡ 26960)
            × (p.currency ≡ inr)
            × (own_payment plan intent r.1 ≡ some p)))
record_intent_kept_example = record_intent_kept world 1 plan intent unpaid_store pending_order refl
