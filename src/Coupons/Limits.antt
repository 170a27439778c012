-- ===== src/Coupons/Limits.antt =====
-- When `evaluate` accepts a coupon, and the limits on its uses.
use fast_api_e_commerce.Prelude.{
  ℕ, suc, ◌≤◌, ◌≡◌, ◌↔◌, ◌&&◌, ◌||◌, true, false, Option, none, some, List, ◌∷◌, ok, arith, is_some,
}
use fast_api_e_commerce.Orders.Types.{Order, Text}
use fast_api_e_commerce.Coupons.{
  Coupon, Discount, usable, uses, status_of, evaluate, has_email, compute_discount, takes_nothing,
  at_limit,
}

-- the limit for one customer does not stop the order
abbrev pub CustomerMayUse : List Order → Coupon → Option ℕ → Option Text → Type 0
CustomerMayUse orders c user email =
    ((is_some user || has_email email)
      && at_limit c.max_uses_per_customer (uses orders c.id user email))
    ≡ false

-- A coupon is accepted exactly when `status_of` calls it active, the goods reach its minimum, the
-- customer's own limit is not reached, and what it takes off is computed and is not nothing.
pub evaluate_iff :
    (orders : List Order) (c : Coupon) (subtotal shipping : ℕ) (user : Option ℕ)
    (email : Option Text) (now : ℕ) (d : Discount)
    → (evaluate orders (some c) subtotal shipping user email now ≡ ok d) ↔ (
        (status_of c (uses orders c.id none none) now ≡ usable)
        × (c.min_subtotal_cents ≤ subtotal)
        × CustomerMayUse orders c user email
        × (compute_discount c.kind c.percent_off c.amount_off_cents c.max_discount_cents subtotal
              shipping
            ≡ ok d)
        × (takes_nothing c.kind d ≡ false))
unfolding evaluate status_of
evaluate_iff orders c subtotal shipping user email now d = (λ h. ground arith, λ h. ground arith)

uses-cons :
    (os : List Order) (o : Order) (c : ℕ) (user : Option ℕ) (email : Option Text)
    → uses (o ∷ os) c user email ≤ suc (uses os c user email)
unfolding uses
uses-cons os o c user email = ground arith

-- With the accepted order among the orders, the coupon is not used more often than its limits say, in
-- all and by the customer who is known by account or by email.
pub evaluate_within_limits :
    (orders : List Order) (c : Coupon) (subtotal shipping : ℕ) (user : Option ℕ)
    (email : Option Text) (now : ℕ) {d : Discount} (o : Order)
    → evaluate orders (some c) subtotal shipping user email now ≡ ok d
    → ((m : ℕ) → c.max_uses_total ≡ some m → uses (o ∷ orders) c.id none none ≤ m)
      × ((m : ℕ)
          → c.max_uses_per_customer ≡ some m
          → (is_some user || has_email email) ≡ true
          → uses (o ∷ orders) c.id user email ≤ m)
unfolding evaluate
evaluate_within_limits orders c subtotal shipping user email now o h =
    let total = uses-cons orders o c.id none none in
    let own = uses-cons orders o c.id user email in (λ m e. ground arith, λ m e known. ground arith)
