-- ===== src/Coupons/Discounts.antt =====
-- A discount against what it is taken off, and its shares over the lines.
use fast_api_e_commerce.Prelude.{
  ℕ, ◌≤◌, ◌<◌, ◌≡◌, Option, List, ok, arith, sum, length, nth, nth-zeros,
}
use native.Mathlib.Decide.{dec_lt}
use fast_api_e_commerce.Tax.Allocate.{allocate}
use fast_api_e_commerce.Tax.Allocate.Decimals.{amount_bound}
use fast_api_e_commerce.Tax.Allocate.Shares.{sum-allocate}
use fast_api_e_commerce.Tax.Allocate.Fair.{allocate_within}
use fast_api_e_commerce.Coupons.{Kind, Discount, compute_discount, share_discount}

-- Whatever a coupon gives is at most the goods off the goods, and at most the shipping charge off the
-- shipping.
pub compute_discount_bounds :
    (kind : Kind) (percent amount cap_cents : Option ℕ) (subtotal shipping : ℕ) {d : Discount}
    → compute_discount kind percent amount cap_cents subtotal shipping ≡ ok d
    → (d.goods_cents ≤ subtotal) × (d.shipping_cents ≤ shipping)
unfolding compute_discount
compute_discount_bounds kind percent amount cap_cents subtotal shipping h = ground arith

within_of_zero : (t k : ℕ) (ws : List ℕ) → sum ws ≡ 0 → nth k (allocate t ws) ≡ 0
unfolding allocate
within_of_zero t k ws e = ground (arith, nth-zeros k (length ws))

-- The shares of a coupon's discount over the order's lines add up to it exactly, and no line is
-- discounted by more than it costs. (The lines come to less than 10^14.)
pub share_discount_exact :
    (kind : Kind) (percent amount cap_cents : Option ℕ) (values : List ℕ) (shipping : ℕ)
    {d : Discount}
    → compute_discount kind percent amount cap_cents (sum values) shipping ≡ ok d
    → sum values < amount_bound
    → (sum (share_discount d.goods_cents values) ≡ d.goods_cents)
      × ((k : ℕ) → k < length values → nth k (share_discount d.goods_cents values) ≤ nth k values)
unfolding share_discount
share_discount_exact kind percent amount cap_cents values shipping {d} h small =
    let le = (compute_discount_bounds kind percent amount cap_cents (sum values) shipping h).0 in
    (
      ground (arith, sum-allocate d.goods_cents values (omega arith) small),
      λ k k_in. elim (dec_lt 0 (sum values)) [
        | yes pos_sum ↦ allocate_within d.goods_cents values k pos_sum (omega arith) small k_in le
        | no zero_sum ↦ omega (arith, within_of_zero d.goods_cents k values (omega arith))
      ],
    )
