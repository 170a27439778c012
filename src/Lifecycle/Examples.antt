-- ===== src/Lifecycle/Examples.antt =====
-- A shop with one pending and one paid order.
use fast_api_e_commerce.Prelude.{
  ℕ, ◌≡◌, refl, Bool, true, false, some, none, [], ◌∷◌, Result, ok, err, if◌then◌else◌, ◌==◌,
}
use fast_api_e_commerce.Orders.Types.{Order, OrderItem, OrderStatus}
use fast_api_e_commerce.Money.{inr, to_stripe_amount, get_currency}
use fast_api_e_commerce.Lifecycle.Db.{
  Db, Payment, PaymentStatus, Refund, get_refund, get_payment, RefundStatus,
}
use fast_api_e_commerce.Lifecycle.Restock.{restock_once}
use fast_api_e_commerce.Lifecycle.Status.{
  release_stock_and_cancel, Answer, answer_canceled, cancel_order, outcome_cancelled,
}
use fast_api_e_commerce.Lifecycle.Refunds.{request_refund, begin_refund_attempt, RefundAttempt}
use fast_api_e_commerce.Lifecycle.Reports.{apply_refund_state, reported_succeeded, confirm_refund}
use fast_api_e_commerce.Lifecycle.Disputes.{DisputeEvent, lost_text}
use fast_api_e_commerce.Lifecycle.Guards.{refunds_guard}
use fast_api_e_commerce.Lifecycle.Guarded.{apply_refund_state_guarded}
use fast_api_e_commerce.Lifecycle.Transitions.{HistoryAllowed}
use fast_api_e_commerce.Lifecycle.Run.{done, then_cancel_order}
use fast_api_e_commerce.Lifecycle.Histories.{Run-HistoryAllowed}
use fast_api_e_commerce.Lifecycle.Safety.{
  request_refund_sound, Refundable, NewRefund, begin_refund_attempt_sound, Submitted,
}
use fast_api_e_commerce.Lifecycle.Confirmed.{confirm_refund-Confirmed, Confirmed}

abbrev or_default : {E A : Type 0} → A → Result E A → A
or_default d (ok a) = a
or_default d (err _) = d

abbrev two_mugs : OrderItem
two_mugs = record {
  id = 1;
  product_id = 1;
  variant_id = none;
  quantity = 2;
  price_cents_snapshot = 10980;
  discount_cents = 0;
  restocked_quantity = 0;
}

abbrev pub pending_order : Order
pending_order = record {
  id = 1;
  user_id = some 5;
  guest_token = none;
  guest_email = none;
  status = OrderStatus.pending;
  idempotency_key = 11;
  request_hash = none;
  cart_digest = none;
  currency = some inr;
  subtotal_cents = 21960;
  discount_cents = 0;
  coupon_id = none;
  shipping_cents = 5000;
  tax_cents = 0;
  total_cents = 26960;
  gst_order = false;
  paid_in_demo_mode = false;
  stock_released = false;
  items = two_mugs ∷ [];
}

abbrev paid_order : Order
paid_order = record pending_order { id = 2; status = OrderStatus.paid }

abbrev pub payment_of : ℕ → PaymentStatus → Payment
payment_of order_id status = record {
  id = order_id;
  order_id = order_id;
  provider = 1;
  provider_is_demo = false;
  by_reference = false;
  provider_config_id = none;
  provider_payment_id = 100;
  provider_reference = none;
  status = status;
  amount_cents = 26960;
  currency = inr;
  provider_refund_id = none;
  refunded_amount_cents = 0;
}

abbrev pub shop : Db
shop = record {
  orders = λ i. if i == 1 then some pending_order else if i == 2 then some paid_order else none;
  payments = payment_of 1 PaymentStatus.pending ∷ payment_of 2 PaymentStatus.succeeded ∷ [];
  refunds = [];
  disputes = [];
  reconciliations = [];
  products = λ i.
      if i == 1
      then some (record {
        price_cents = 10980;
        stock = 3;
        option_count = 0;
        classification_id = none;
        is_active = true;
      })
      else none;
  variants = λ _. none;
  released_lines = [];
  history =
      (1, OrderStatus.pending, OrderStatus.pending)
      ∷ (2, OrderStatus.pending, OrderStatus.paid)
      ∷ (2, OrderStatus.pending, OrderStatus.pending)
      ∷ [];
  documents = [];
  has_profile = true;
  jobs = [];
  audits = [];
}

abbrev agreed : Payment → Answer
agreed _ = answer_canceled

abbrev unchanged : Db → Db
unchanged db = db

abbrev cancelled_shop : Db
unfolding cancel_order
cancelled_shop = (cancel_order agreed unchanged 1 shop).1

Run-HistoryAllowed_example : HistoryAllowed cancelled_shop.history
unfolding cancel_order HistoryAllowed
Run-HistoryAllowed_example =
    Run-HistoryAllowed
      (then_cancel_order {a = shop} {r = ok outcome_cancelled} agreed unchanged 1 done done refl)
      (refl, (refl, (refl, tt)))

abbrev requested : (Refund × Bool) × Db
unfolding request_refund to_stripe_amount get_currency
requested =
    or_default
      (
        (
          record {
            id = 0;
            payment_id = 0;
            order_id = 0;
            amount_cents = 0;
            currency = [];
            status = RefundStatus.failed;
            provider_refund_id = none;
            attempt_number = 0;
            attempts = 0;
            cancels_order = false;
            started_here = false;
          },
          false,
        ),
        shop,
      )
      (request_refund 2 none false shop)

request_refund_sound_example :
    (o : Order) × (shop.orders 2 ≡ some o)
    × (p : Payment) × Refundable none o p shop
    × NewRefund p requested.0.0 shop requested.1
unfolding request_refund to_stripe_amount get_currency requested
request_refund_sound_example = request_refund_sound 2 none false requested.0.0 shop requested.1 refl

abbrev attempt : RefundAttempt
attempt = record {
  refund_id = 0;
  provider_payment_id = 100;
  provider_config_id = none;
  amount = 26960;
  currency = inr;
  idempotency_key = (2, 0);
}

abbrev attempted : Db
unfolding begin_refund_attempt to_stripe_amount get_currency requested
attempted = (or_default (none, shop) (begin_refund_attempt 0 requested.1)).1

begin_refund_attempt_sound_example :
    (r : Refund) × (p : Payment) × (get_refund 0 requested.1 ≡ some r)
    × (get_payment r.payment_id requested.1 ≡ some p)
    × (r.status ≡ RefundStatus.requested)
    × Submitted r p attempt requested.1
unfolding begin_refund_attempt to_stripe_amount get_currency requested attempted
begin_refund_attempt_sound_example = begin_refund_attempt_sound 0 attempt requested.1 attempted refl

abbrev confirmed : Db
unfolding confirm_refund restock_once
confirmed = or_default shop (confirm_refund requested.0.0 (some 77) none attempted)

confirm_refund-Confirmed_example : Confirmed requested.0.0 none attempted confirmed
unfolding confirm_refund requested attempted confirmed
confirm_refund-Confirmed_example =
    confirm_refund-Confirmed requested.0.0 (some 77) none attempted confirmed refl

abbrev released_shop : Order × Db
unfolding restock_once
released_shop = or_default (pending_order, shop) (restock_once pending_order shop)

abbrev cancelled_order : Order × Db
unfolding release_stock_and_cancel
cancelled_order = or_default (pending_order, shop) (release_stock_and_cancel pending_order shop)

abbrev refunded_shop : Db
unfolding apply_refund_state attempted requested
refunded_shop = or_default shop (
    apply_refund_state requested.0.0 reported_succeeded (some 26960) (some inr) (some 77)
      requested.1)

apply_refund_state_guarded_example :
    (q : Refund) × (get_refund 0 refunded_shop ≡ some q)
    × (refunds_guard requested.0.0 q ≡ true)
    × (false ≡ false → q.status ≡ RefundStatus.succeeded)
unfolding apply_refund_state refunded_shop requested request_refund to_stripe_amount get_currency
apply_refund_state_guarded_example =
    apply_refund_state_guarded requested.0.0 reported_succeeded (some 26960) (some inr) (some 77)
      requested.1 refunded_shop refl refl

abbrev chargeback : DisputeEvent
chargeback = record {
  provider = 1;
  event_id = 900;
  provider_payment_id = some 100;
  provider_dispute_id = some 500;
  dispute_status = lost_text;
  amount = none;
  currency = none;
}
