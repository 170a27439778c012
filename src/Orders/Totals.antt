-- ===== src/Orders/Totals.antt =====
-- The amounts of an order that checkout makes.
use fast_api_e_commerce.Prelude.{
  ℕ, suc, ◌+◌, ◌-◌, ◌*◌, ◌≤◌, ◌<◌, Option, none, some, List, [], ◌∷◌, ok, ◌≡◌, inl, inr, refl, sym,
  ◌∙◌, ap, arith, length, Result-cases, Bool-cases, bind_ok, sum, nth, replicate, length-map,
  length-replicate, sum-replicate_zero, nth-zeros, ◌==◌,
}
use fast_api_e_commerce.Money.{Currency}
use fast_api_e_commerce.Cart.{get_or_create_cart}
use fast_api_e_commerce.Cart.View.{cart_digest}
use fast_api_e_commerce.Orders.Types.{Order, OrderItem, Text}
use fast_api_e_commerce.Tax.Allocate.Decimals.{amount_bound}
use fast_api_e_commerce.Tax.Allocate.Shares.{length-allocate}
use fast_api_e_commerce.Coupons.{Coupon, Discount, share_discount, evaluate, compute_discount}
use fast_api_e_commerce.Coupons.Discounts.{compute_discount_bounds, share_discount_exact}
use fast_api_e_commerce.Coupons.Limits.{evaluate_iff}
use fast_api_e_commerce.Orders.Shop.{Config, Shop, Request, Env}
use fast_api_e_commerce.Orders.Sell.{Sold, values_of, subtotal_of}
use fast_api_e_commerce.Orders.Price.{
  calculate_shipping, user_of, email_of, given_code, find_coupon, lift_coupon, no_reduction,
  Reduction, reduce_by, reduce_code, reduce,
}
use fast_api_e_commerce.Orders.Checkout.{order_items, new_order, checkout_new}
use fast_api_e_commerce.Orders.Placed.{New, Placed, checkout_new-inv}

-- a reduction that is shared out exactly over the lines, none of them below 0
unfoldable pub Fair : List Sold → Reduction → Type 0
Fair sold q =
    (q.goods_cents ≤ subtotal_of sold)
    × (length q.shares ≡ length sold)
    × (sum q.shares ≡ q.goods_cents)
    × ((k : ℕ) → k < length (values_of sold) → nth k q.shares ≤ nth k (values_of sold))

no_shares-Fair :
    (sold : List Sold) (c : Option Coupon) (shipping : ℕ)
    → Fair sold (record {
      coupon = c;
      goods_cents = 0;
      shipping_cents = shipping;
      shares = replicate (length sold) 0;
    })
unfolding Fair
no_shares-Fair sold c shipping =
    let n = length sold in
    (
      omega arith,
      length-replicate {A = ℕ} n 0,
      sum-replicate_zero n,
      λ k k_in. omega (arith, nth-zeros k n),
    )

reduce_by-Fair :
    (config : Config) (sold : List Sold) (o : Option Coupon) (c : Coupon) (shipping : ℕ)
    (d : Discount) (q : Reduction)
    → compute_discount c.kind c.percent_off c.amount_off_cents c.max_discount_cents
        (subtotal_of sold)
        shipping
      ≡ ok d
    → subtotal_of sold < amount_bound
    → reduce_by config sold o d ≡ ok q
    → Fair sold q
unfolding reduce_by Fair share_discount
reduce_by-Fair config sold o c shipping d q e small h = elim (Bool-cases (d.goods_cents == 0)) [
  | inl z ↦
      let n = length sold in
      let zero_q : q
          ≡ record { coupon = o; goods_cents = 0; shipping_cents = 0; shares = replicate n 0 } =
        ground arith in
      rw zero_q (no_shares-Fair sold o 0)
  | inr nz ↦ elim (Result-cases (calculate_shipping config (subtotal_of sold - d.goods_cents))) [
    | inl (x, k) ↦ absurd (ground arith)
    | inr (s, k) ↦
        let zero_q : q ≡ record {
          coupon = o;
          goods_cents = d.goods_cents;
          shipping_cents = s;
          shares = share_discount d.goods_cents (values_of sold);
        } =
          ground arith in
        let (exact, within) =
          share_discount_exact c.kind c.percent_off c.amount_off_cents c.max_discount_cents
            (values_of sold) shipping e small in
        let (le, _) =
          compute_discount_bounds c.kind c.percent_off c.amount_off_cents c.max_discount_cents
            (subtotal_of sold) shipping e in
        let len : length (share_discount d.goods_cents (values_of sold)) ≡ length sold = omega (
          arith,
          length-allocate d.goods_cents (values_of sold),
          length-map (λ (s : Sold). s.price_cents * s.item.quantity) sold,
        ) in
        rw zero_q (le, len, exact, within)
  ]
]

no_coupon :
    (orders : List Order) (subtotal shipping : ℕ) (user : Option ℕ) (email : Option Text) (now : ℕ)
    (d : Discount)
    → lift_coupon (evaluate orders none subtotal shipping user email now) ≡ ok d
    → ⊥
unfolding evaluate
no_coupon orders subtotal shipping user email now d h = ground arith

lift_coupon-ok :
    (env : Env) (r : Request) (shop : Shop) (subtotal shipping : ℕ) (o : Option Coupon)
    (d : Discount)
    → lift_coupon (evaluate shop.orders o subtotal shipping (user_of r.owner) (email_of r) env.now)
      ≡ ok d
    → (c : Coupon) × (o ≡ some c)
      × (compute_discount c.kind c.percent_off c.amount_off_cents c.max_discount_cents subtotal
            shipping
          ≡ ok d)
lift_coupon-ok env r shop subtotal shipping none d h =
    absurd (no_coupon shop.orders subtotal shipping (user_of r.owner) (email_of r) env.now d h)
lift_coupon-ok env r shop subtotal shipping (some c) d h =
    let e : evaluate shop.orders (some c) subtotal shipping (user_of r.owner) (email_of r) env.now
        ≡ ok d =
      ground arith in
    (
      c,
      refl,
      ((evaluate_iff shop.orders c subtotal shipping (user_of r.owner) (email_of r) env.now d).0
          e).3,
    )

reduce_code-Fair :
    (env : Env) (r : Request) (shop : Shop) (sold : List Sold) (shipping : ℕ) (code : Option Text)
    (q : Reduction)
    → reduce_code env r shop sold shipping code ≡ ok q
    → subtotal_of sold < amount_bound
    → Fair sold q
unfolding reduce_code
reduce_code-Fair env r shop sold shipping none q h small =
    let z : q ≡ no_reduction sold shipping = ground arith in
    rw z (no_shares-Fair sold none shipping)
reduce_code-Fair env r shop sold shipping (some code) q h small =
    let (d, ed, h1) =
      bind_ok
        (lift_coupon (
          evaluate shop.orders (find_coupon shop code) (subtotal_of sold) shipping (user_of r.owner)
            (email_of r) env.now))
        _ h in
    let (c, ec, computed) =
      lift_coupon-ok env r shop (subtotal_of sold) shipping (find_coupon shop code) d ed in
    reduce_by-Fair env.config sold (find_coupon shop code) c shipping d q computed small h1

pub reduce-Fair :
    (env : Env) (r : Request) (shop : Shop) (sold : List Sold) (shipping : ℕ) (q : Reduction)
    → reduce env r shop sold shipping ≡ ok q
    → subtotal_of sold < amount_bound
    → Fair sold q
unfolding reduce
reduce-Fair env r shop sold shipping q h small =
    reduce_code-Fair env r shop sold shipping (given_code r.coupon_code) q h small

-- quantity times price, and the discounts, of the order's lines
abbrev pub lines_total : List OrderItem → ℕ
lines_total [] = 0
lines_total (i ∷ is) = i.price_cents_snapshot * i.quantity + lines_total is

abbrev pub lines_discount : List OrderItem → ℕ
lines_discount [] = 0
lines_discount (i ∷ is) = i.discount_cents + lines_discount is

-- no line is discounted by more than it costs (a CHECK of order_items)
pub WithinPrice : List OrderItem → Type 0
WithinPrice [] = Unit
WithinPrice (i ∷ is) = (i.discount_cents ≤ i.price_cents_snapshot * i.quantity) × WithinPrice is

order_items-totals :
    (next : ℕ) (sold : List Sold) (shares : List ℕ)
    → length shares ≡ length sold
    → (lines_total (order_items next sold shares) ≡ subtotal_of sold)
      × (lines_discount (order_items next sold shares) ≡ sum shares)
unfolding order_items
order_items-totals next [] [] h = (refl, refl)
order_items-totals next [] (x ∷ xs) h = absurd (omega arith)
order_items-totals next (s ∷ ss) [] h = absurd (omega arith)
order_items-totals next (s ∷ ss) (x ∷ xs) h =
    let (a, b) = order_items-totals (suc next) ss xs (omega arith) in (omega arith, omega arith)

order_items-WithinPrice :
    (next : ℕ) (sold : List Sold) (shares : List ℕ)
    → length shares ≡ length sold
    → ((k : ℕ) → k < length (values_of sold) → nth k shares ≤ nth k (values_of sold))
    → WithinPrice (order_items next sold shares)
unfolding order_items WithinPrice
order_items-WithinPrice next [] shares h w = tt
order_items-WithinPrice next (s ∷ ss) [] h w = absurd (omega arith)
order_items-WithinPrice next (s ∷ ss) (x ∷ xs) h w = (
  w 0 (omega arith),
  order_items-WithinPrice (suc next) ss xs (omega arith) (λ k k_in. w (suc k) (omega arith)),
)

-- the amounts of an order agree with each other and with its lines
unfoldable pub Balanced : Order → Type 0
Balanced o =
    (o.subtotal_cents ≡ lines_total o.items)
    × (o.discount_cents ≡ lines_discount o.items)
    × (o.discount_cents ≤ o.subtotal_cents)
    × WithinPrice o.items
    × (o.total_cents + o.discount_cents ≡ o.subtotal_cents + o.shipping_cents + o.tax_cents)

new_order-Balanced :
    (env : Env) (r : Request) (shop : Shop) (digest : ℕ) (currency : Currency) (sold : List Sold)
    (q : Reduction) (tax : ℕ)
    → Fair sold q
    → Balanced (new_order env r shop digest currency sold q tax)
unfolding Fair Balanced new_order
new_order-Balanced env r shop digest currency sold q tax (le, len, exact, within) =
    let (a, b) = order_items-totals shop.next_order_item sold q.shares len in
    (
      sym a,
      sym (b ∙ exact),
      le,
      order_items-WithinPrice shop.next_order_item sold q.shares len within,
      omega arith,
    )

subtotal-new_order :
    (env : Env) (r : Request) (shop : Shop) (digest : ℕ) (currency : Currency) (sold : List Sold)
    (q : Reduction) (tax : ℕ)
    → (new_order env r shop digest currency sold q tax).subtotal_cents ≡ subtotal_of sold
unfolding new_order
subtotal-new_order env r shop digest currency sold q tax = refl

-- For an order below 10^14 that checkout makes under a new key: its subtotal is what its lines come to,
-- its discount is the sum of theirs and at most the subtotal, no line is discounted by more than it
-- costs, and the total with the discount is the subtotal with shipping and tax.
pub checkout_new-Balanced :
    (env : Env) (r : Request) (shop : Shop) (p : Order × Shop)
    → checkout_new env r shop ≡ ok p
    → p.0.subtotal_cents < amount_bound
    → Balanced p.0
unfolding New Placed
checkout_new-Balanced env r shop p h small =
    let ((currency, columns, _, _, _, placed), _) = checkout_new-inv env r shop p h in
    let (sold, shipping, q, tax, products, variants, es, ec, e2, e3, e4, e5, e6, e7) = placed in
    let digest = cart_digest env.sha256 (get_or_create_cart r.owner shop.carts).0.items in
    let is_new : p.0 ≡ new_order env r shop digest currency sold q tax = ap (λ x. x.0) e7 in
    let fair =
      reduce-Fair env r shop sold shipping q e3
        (rw (subtotal-new_order env r shop digest currency sold q tax) at (rw is_new at small)) in
    rw is_new (new_order-Balanced env r shop digest currency sold q tax fair)
