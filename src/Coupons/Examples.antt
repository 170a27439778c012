-- ===== src/Coupons/Examples.antt =====
-- Coupons on concrete orders.
use fast_api_e_commerce.Prelude.{
  ℕ, ◌≤◌, ◌<◌, ◌≡◌, ◌↔◌, refl, true, false, some, none, List, [], ◌∷◌, arith, ok, sum, nth,
}
use fast_api_e_commerce.Orders.Types.{Order, OrderStatus}
use fast_api_e_commerce.Tax.Gst.{half_up}
use fast_api_e_commerce.Coupons.{
  percentage, Coupon, Discount, compute_discount, share_discount, evaluate, status_of, usable, uses,
  takes_nothing,
}
use fast_api_e_commerce.Coupons.Discounts.{share_discount_exact}
use fast_api_e_commerce.Coupons.Limits.{evaluate_iff, evaluate_within_limits, CustomerMayUse}

abbrev tenth_off : Discount
tenth_off = record { goods_cents = 2440; shipping_cents = 0 }

abbrev prices : List ℕ
prices = 19900 ∷ 4500 ∷ []

share_discount_exact_example :
    (sum (share_discount 2440 prices) ≡ 2440)
    × ((k : ℕ) → k < 2 → nth k (share_discount 2440 prices) ≤ nth k prices)
unfolding compute_discount half_up
share_discount_exact_example =
    share_discount_exact percentage (some 1000) none (some 3000) prices 5000 {d = tenth_off} refl
      (omega arith)

-- ten percent off, once in all
abbrev launch : Coupon
launch = record {
  id = 7;
  kind = percentage;
  percent_off = some 1000;
  amount_off_cents = none;
  max_discount_cents = some 3000;
  min_subtotal_cents = 10000;
  starts_at = some 100;
  ends_at = some 200;
  max_uses_total = some 1;
  max_uses_per_customer = some 1;
  active = true;
}

-- a cancelled order that carried the coupon
abbrev given_up : Order
given_up = record {
  id = 1;
  user_id = some 5;
  guest_token = none;
  guest_email = none;
  status = OrderStatus.cancelled;
  idempotency_key = 11;
  request_hash = none;
  cart_digest = none;
  currency = some (b'i' ∷ b'n' ∷ b'r' ∷ []);
  subtotal_cents = 24400;
  discount_cents = 2440;
  coupon_id = some 7;
  shipping_cents = 5000;
  tax_cents = 0;
  total_cents = 26960;
  gst_order = false;
  paid_in_demo_mode = false;
  stock_released = true;
  items = [];
}

abbrev placed : Order
placed = record given_up { id = 2; status = OrderStatus.pending }

evaluate_iff_example :
    (evaluate (given_up ∷ []) (some launch) 24400 5000 (some 5) none 150 ≡ ok tenth_off) ↔ (
      (status_of launch (uses (given_up ∷ []) 7 none none) 150 ≡ usable)
      × (10000 ≤ 24400)
      × CustomerMayUse (given_up ∷ []) launch (some 5) none
      × (compute_discount percentage (some 1000) none (some 3000) 24400 5000 ≡ ok tenth_off)
      × (takes_nothing percentage tenth_off ≡ false))
evaluate_iff_example = evaluate_iff (given_up ∷ []) launch 24400 5000 (some 5) none 150 tenth_off

evaluate_within_limits_example :
    ((m : ℕ) → launch.max_uses_total ≡ some m → uses (placed ∷ given_up ∷ []) 7 none none ≤ m)
    × ((m : ℕ)
        → launch.max_uses_per_customer ≡ some m
        → true ≡ true
        → uses (placed ∷ given_up ∷ []) 7 (some 5) none ≤ m)
unfolding evaluate uses compute_discount half_up
evaluate_within_limits_example =
    evaluate_within_limits (given_up ∷ []) launch 24400 5000 (some 5) none 150 {d = tenth_off}
      placed refl
