-- ===== src/Orders/Price.antt =====
-- Shipping, coupon and tax of an order, as `checkout` and `quote` work them out
-- (app/modules/orders/services/order_service.py). A GST engine carries the tax master that it reads; in
-- the code that is the shop's.
use fast_api_e_commerce.Prelude.{
  ℕ, ◌-◌, Bool, false, not, ◌&&◌, ◌||◌, Option, none, some, List, [], ◌∷◌, Result, ok, err, ◌>>=◌,
  ◌>>◌, raise_if, leb, ◌==◌, if◌then◌else◌, length, replicate, is_some, find,
}
use fast_api_e_commerce.Orders.Types.{Text, same_text}
use fast_api_e_commerce.Products.{Product, Table}
use fast_api_e_commerce.Cart.{Owner, user, guest}
use fast_api_e_commerce.Coupons.{
  Coupon, CouponError, Discount, share_discount, evaluate, normalise_code,
}
use fast_api_e_commerce.Tax.Engine.{TaxLine, TaxRequest, is_configured, calculate_tax, TaxError}
use fast_api_e_commerce.Orders.Shop.{
  Address, SavedAddress, Config, Shop, Request, Env, CheckoutError, checkout_not_configured,
  shipping_address_required, address_not_found, coupon_error, tax_error,
}
use fast_api_e_commerce.Orders.Sell.{Sold, values_of, subtotal_of}

-- an optional amount that is set and not 0
abbrev pub threshold_of : Config → Option ℕ
threshold_of config = elim config.free_shipping_threshold_cents [
  | none ↦ none
  | some t ↦ if t == 0 then none else some t
]

-- `_assert_pricing_configured`, whether it raises
abbrev pub pricing_configured : Config → Bool
pricing_configured config =
    is_some config.flat_shipping_cents
    && is_configured config.tax_engine
    && (not (is_some (threshold_of config)) || is_some config.free_shipping_threshold_basis)

abbrev waived : Option ℕ → ℕ → Bool
waived none subtotal = false
waived (some threshold) subtotal = leb threshold subtotal

unfoldable pub calculate_shipping : Config → ℕ → Result CheckoutError ℕ
calculate_shipping config subtotal = do
  raise_if (not (pricing_configured config)) checkout_not_configured
  elim config.flat_shipping_cents [
    | none ↦ err checkout_not_configured
    | some flat ↦ ok (if waived (threshold_of config) subtotal then 0 else flat)
  ]

abbrev pub user_of : Owner → Option ℕ
user_of (user id) = some id
user_of (guest _) = none

-- `guest_email if is_guest else None`
abbrev pub email_of : Request → Option Text
email_of r = elim r.owner [ user _ ↦ none | guest _ ↦ r.guest_email ]

-- `find_by_code`; codes are unique
abbrev pub find_coupon : Shop → Text → Option Coupon
find_coupon shop code = elim (find (λ c. same_text c.0 (normalise_code code)) shop.coupons) [
  | none ↦ none
  | some c ↦ some c.1
]

-- what the coupon does to an order
pub record Reduction : Type 0 where
  pub coupon : Option Coupon
  pub goods_cents : ℕ
  pub shipping_cents : ℕ
  pub shares : List ℕ

abbrev pub no_reduction : List Sold → ℕ → Reduction
no_reduction sold shipping = record {
  coupon = none;
  goods_cents = 0;
  shipping_cents = shipping;
  shares = replicate (length sold) 0;
}

abbrev pub lift_coupon : {A : Type 0} → Result CouponError A → Result CheckoutError A
lift_coupon (ok a) = ok a
lift_coupon (err e) = err (coupon_error e)

-- shipping and shares under a discount
unfoldable pub reduce_by :
    Config → List Sold → Option Coupon → Discount → Result CheckoutError Reduction
reduce_by config sold coupon d =
    if d.goods_cents == 0
    then ok (record {
      coupon = coupon;
      goods_cents = 0;
      shipping_cents = 0;
      shares = replicate (length sold) 0;
    })
    else calculate_shipping config (subtotal_of sold - d.goods_cents) >>= λ shipping. ok (record {
      coupon = coupon;
      goods_cents = d.goods_cents;
      shipping_cents = shipping;
      shares = share_discount d.goods_cents (values_of sold);
    })

-- a code that is given and not empty
abbrev pub given_code : Option Text → Option Text
given_code (some (c ∷ cs)) = some (c ∷ cs)
given_code _ = none

-- the discount of a coupon code, if one is given
unfoldable pub reduce_code :
    Env → Request → Shop → List Sold → ℕ → Option Text → Result CheckoutError Reduction
reduce_code env r shop sold shipping none = ok (no_reduction sold shipping)
reduce_code env r shop sold shipping (some code) = do
  let coupon = find_coupon shop code
  d ← lift_coupon (
      evaluate shop.orders coupon (subtotal_of sold) shipping (user_of r.owner) (email_of r)
        env.now)
  reduce_by env.config sold coupon d

unfoldable pub reduce : Env → Request → Shop → List Sold → ℕ → Result CheckoutError Reduction
unfolding reduce_code
reduce env r shop sold shipping = reduce_code env r shop sold shipping (given_code r.coupon_code)

abbrev classification_of : Table Product → ℕ → Option ℕ
classification_of products id = elim (products id) [ none ↦ none | some p ↦ p.classification_id ]

-- the lines that `_calculate_tax` sends to the engine
unfoldable pub tax_lines : Table Product → List Sold → List ℕ → List TaxLine
tax_lines products (s ∷ ss) (share ∷ shares) =
    record {
      product_id = s.item.product_id;
      quantity = s.item.quantity;
      unit_price_paise = s.price_cents;
      classification_id = classification_of products s.item.product_id;
      discount_paise = share;
    }
    ∷ tax_lines products ss shares
tax_lines products _ _ = []

abbrev pub state_of : Option Address → Option Text
state_of none = none
state_of (some a) = some a.state

abbrev pub country_of : Option Address → Option Text
country_of none = none
country_of (some a) = some a.country

abbrev pub lift_tax : {A : Type 0} → Result TaxError A → Result CheckoutError A
lift_tax (ok a) = ok a
lift_tax (err e) = err (tax_error e)

-- the request of `_calculate_tax`
abbrev pub tax_request : Env → Shop → List Sold → Reduction → Option Address → TaxRequest
tax_request env shop sold reduction columns = record {
  lines = tax_lines shop.products sold reduction.shares;
  subtotal_paise = subtotal_of sold - reduction.goods_cents;
  shipping_paise = reduction.shipping_cents;
  as_of = env.india_today;
  delivery_state = state_of columns;
  delivery_country = country_of columns;
}

-- `_calculate_tax`, the tax that is added
unfoldable pub calculate_order_tax :
    Env → Shop → List Sold → Reduction → Option Address → Result CheckoutError ℕ
calculate_order_tax env shop sold reduction columns =
    lift_tax (calculate_tax env.config.tax_engine (tax_request env shop sold reduction columns))

abbrev saved_address : List SavedAddress → ℕ → ℕ → Result CheckoutError (Option Address)
saved_address addresses user_id id = elim (find (λ a. a.id == id) addresses) [
  | none ↦ err address_not_found
  | some a ↦ if a.user_id == user_id then ok (some a.columns) else err address_not_found
]

abbrev default_address : List SavedAddress → ℕ → Option Address
default_address addresses user_id =
    elim (find (λ a. a.user_id == user_id && a.is_default) addresses) [
      | none ↦ none
      | some a ↦ some a.columns
    ]

-- `_resolve_shipping_snapshot`, with the address repository that every request has
unfoldable pub resolve_shipping_snapshot :
    Shop → Owner → Option ℕ → Option Address → Result CheckoutError (Option Address)
resolve_shipping_snapshot shop owner address_id (some a) = ok (some a)
resolve_shipping_snapshot shop (guest _) address_id none = err shipping_address_required
resolve_shipping_snapshot shop (user u) (some id) none = saved_address shop.addresses u id
resolve_shipping_snapshot shop (user u) none none = ok (default_address shop.addresses u)
