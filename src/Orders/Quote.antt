-- ===== src/Orders/Quote.antt =====
-- `quote` of app/modules/orders/services/order_service.py: what checkout would charge for a cart. The
-- answer is that of app/modules/orders/schemas/quote.py, with the coupon itself for its code.
pub mod Lines
pub mod Agrees
use fast_api_e_commerce.Prelude.{
  ℕ, suc, ◌+◌, ◌-◌, ◌*◌, Bool, true, false, not, ◌&&◌, ◌||◌, Option, none, some, List, [], ◌∷◌,
  Result, ok, err, ◌>>=◌, ◌>>◌, raise_if, ltb, leb, ◌==◌, if◌then◌else◌, length, replicate, is_some,
  get_or,
}
use fast_api_e_commerce.Orders.Types.{Text}
use fast_api_e_commerce.Products.{Product, Variant, Table}
use fast_api_e_commerce.Cart.{CartItem, Owner, user, guest}
use fast_api_e_commerce.Cart.View.{Unavailable, LineState, line_state}
use fast_api_e_commerce.Coupons.{Coupon, Discount, share_discount, evaluate}
use fast_api_e_commerce.Tax.Engine.{Engine, gst, is_configured}
use fast_api_e_commerce.Orders.Shop.{
  Address, Config, Shop, Request, Env, CheckoutError, missing_row, delivery_not_available,
}
use fast_api_e_commerce.Orders.Sell.{Sold, sorted_items, values_of, subtotal_of, price_changes}
use fast_api_e_commerce.Orders.Price.{
  calculate_shipping, user_of, email_of, given_code, find_coupon, lift_coupon, Reduction,
  calculate_order_tax, resolve_shipping_snapshot,
}
use fast_api_e_commerce.Orders.Checkout.{resolve_currency, is_gst, not_empty}

pub data TaxReason : Type 0 where
  cart_is_empty tax_not_set shipping_not_set address_required : TaxReason

pub record QuoteLine : Type 0 where
  pub item_id : ℕ
  pub line_total_cents : ℕ
  pub discount_cents : ℕ

-- `is_live` is the status "live".
pub record QuoteTax : Type 0 where
  pub is_live : Bool
  pub added_cents : Option ℕ
  pub reason : Option TaxReason

pub record CartQuote : Type 0 where
  pub lines : List QuoteLine
  pub subtotal_cents : ℕ
  pub discount_cents : ℕ
  pub coupon : Option Coupon
  pub shipping_cents : Option ℕ
  pub tax : QuoteTax
  pub total_cents : Option ℕ
  pub blocking : List (ℕ × Unavailable)
  pub price_changed : Bool
  pub requires_address : Bool

-- the variant that `attach_variant_details` attaches
abbrev pub variant_of : Table Variant → Option ℕ → Option Variant
variant_of variants none = none
variant_of variants (some v) = variants v

-- `line_state` of an item; every line has its product
unfoldable pub item_state : Table Product → Table Variant → CartItem → Option LineState
item_state products variants i = elim (products i.product_id) [
  | none ↦ none
  | some p ↦ some (line_state p (variant_of variants i.variant_id) i.quantity)
]

-- `prices`, with their items
unfoldable pub quoted :
    Table Product → Table Variant → List CartItem → Result CheckoutError (List Sold)
quoted products variants [] = ok []
quoted products variants (i ∷ is) = elim (item_state products variants i) [
  | none ↦ err missing_row
  | some s ↦ quoted products variants is >>= λ rest.
      ok (record { item = i; price_cents = s.price_cents } ∷ rest)
]

abbrev add_reason : ℕ → Option LineState → List (ℕ × Unavailable) → List (ℕ × Unavailable)
add_reason id none rest = rest
add_reason id (some s) rest = elim s.reason [ none ↦ rest | some reason ↦ (id, reason) ∷ rest ]

unfoldable pub blocking_of : Table Product → Table Variant → List CartItem → List (ℕ × Unavailable)
blocking_of products variants [] = []
blocking_of products variants (i ∷ is) =
    add_reason i.id (item_state products variants i) (blocking_of products variants is)

-- the shipping charge, if it can be known
abbrev pub ok_or_none : {A : Type 0} → Result CheckoutError A → Option A
ok_or_none (ok a) = some a
ok_or_none (err _) = none

pub record QuoteReduction : Type 0 where
  pub coupon : Option Coupon
  pub goods_cents : ℕ
  pub shipping_cents : Option ℕ
  pub shares : List ℕ

-- shipping under a discount on the goods
abbrev shipping_after : Config → ℕ → Option ℕ → Result CheckoutError (Option ℕ)
shipping_after config net none = ok none
shipping_after config net (some _) = calculate_shipping config net >>= λ n. ok (some n)

abbrev free_shipping_after : Option ℕ → Option ℕ
free_shipping_after none = none
free_shipping_after (some _) = some 0

unfoldable pub quote_reduce_by :
    Config → List Sold → Option Coupon → Option ℕ → Discount → Result CheckoutError QuoteReduction
quote_reduce_by config sold coupon shipping d =
    if d.goods_cents == 0
    then ok (record {
      coupon = coupon;
      goods_cents = 0;
      shipping_cents = free_shipping_after shipping;
      shares = replicate (length sold) 0;
    })
    else shipping_after config (subtotal_of sold - d.goods_cents) shipping >>= λ after. ok (record {
      coupon = coupon;
      goods_cents = d.goods_cents;
      shipping_cents = after;
      shares = share_discount d.goods_cents (values_of sold);
    })

unfoldable pub quote_reduce_code :
    Env → Request → Shop → List Sold → Option ℕ → Option Text → Result CheckoutError QuoteReduction
quote_reduce_code env r shop sold shipping none = ok (record {
  coupon = none;
  goods_cents = 0;
  shipping_cents = shipping;
  shares = replicate (length sold) 0;
})
quote_reduce_code env r shop sold shipping (some code) = do
  let coupon = find_coupon shop code
  d ← lift_coupon (
      evaluate shop.orders coupon (subtotal_of sold) (get_or shipping 0) (user_of r.owner)
        (email_of r) env.now)
  quote_reduce_by env.config sold coupon shipping d

unfoldable pub quote_reduce :
    Env → Request → Shop → List Sold → Option ℕ → Result CheckoutError QuoteReduction
unfolding quote_reduce_code
quote_reduce env r shop sold shipping =
    quote_reduce_code env r shop sold shipping (given_code r.coupon_code)

-- the address, if the request or a saved default gives one
unfoldable pub quote_columns :
    Shop → Owner → Option ℕ → Option Address → Result CheckoutError (Option Address)
quote_columns shop owner address_id shipping_address =
    if is_some shipping_address || is_some address_id
    then resolve_shipping_snapshot shop owner address_id shipping_address
    else if is_some (user_of owner)
    then resolve_shipping_snapshot shop owner none none
    else ok none

-- `not columns.get("shipping_state")`
abbrev pub no_state : Option Address → Bool
no_state none = true
no_state (some a) = not (not_empty a.state)

abbrev pub known : ℕ → QuoteTax
known n = record { is_live = true; added_cents = some n; reason = none }

abbrev unknown : Bool → TaxReason → QuoteTax
unknown live reason = record { is_live = live; added_cents = none; reason = some reason }

abbrev pub as_reduction : QuoteReduction → ℕ → Reduction
as_reduction q shipping = record {
  coupon = q.coupon;
  goods_cents = q.goods_cents;
  shipping_cents = shipping;
  shares = q.shares;
}

unfoldable pub quote_tax :
    Env → Shop → List Sold → QuoteReduction → Option Address → Result CheckoutError QuoteTax
quote_tax env shop sold q columns =
    if not (is_configured env.config.tax_engine)
    then ok (unknown false tax_not_set)
    else if is_gst env.config.tax_engine && no_state columns
    then ok (unknown true address_required)
    else elim q.shipping_cents [
      | none ↦ ok (unknown true shipping_not_set)
      | some shipping ↦
          calculate_order_tax env shop sold (as_reduction q shipping) columns >>= λ n. ok (known n)
    ]

abbrev pub quote_total : ℕ → Option ℕ → Option ℕ → Option ℕ
quote_total net (some shipping) (some tax) = some (net + shipping + tax)
quote_total net _ _ = none

abbrev pub needs_address : Env → Option Address → Bool
needs_address env columns =
    is_configured env.config.tax_engine && is_gst env.config.tax_engine && no_state columns

unfoldable pub quote_lines : List Sold → List ℕ → List QuoteLine
quote_lines (s ∷ ss) (share ∷ shares) =
    record {
      item_id = s.item.id;
      line_total_cents = s.price_cents * s.item.quantity;
      discount_cents = share;
    }
    ∷ quote_lines ss shares
quote_lines _ _ = []

abbrev empty_quote : Env → CartQuote
empty_quote env = record {
  lines = [];
  subtotal_cents = 0;
  discount_cents = 0;
  coupon = none;
  shipping_cents = none;
  tax = unknown (is_configured env.config.tax_engine) cart_is_empty;
  total_cents = none;
  blocking = [];
  price_changed = false;
  requires_address = false;
}

-- the quote of lines that are priced
unfoldable pub quote_sold :
    Env → Request → Shop → List CartItem → List Sold → Result CheckoutError CartQuote
quote_sold env r shop items sold = do
  q ← quote_reduce env r shop sold (ok_or_none (calculate_shipping env.config (subtotal_of sold)))
  columns ← quote_columns shop r.owner r.address_id r.shipping_address
  raise_if (is_some columns && not (env.deliverable columns)) delivery_not_available
  tax ← quote_tax env shop sold q columns
  ok (record {
    lines = quote_lines sold q.shares;
    subtotal_cents = subtotal_of sold;
    discount_cents = q.goods_cents;
    coupon = q.coupon;
    shipping_cents = q.shipping_cents;
    tax = tax;
    total_cents = quote_total (subtotal_of sold - q.goods_cents) q.shipping_cents tax.added_cents;
    blocking = blocking_of shop.products shop.variants items;
    price_changed = not_empty (price_changes sold);
    requires_address = needs_address env columns;
  })

unfoldable pub quote : Env → Request → Shop → List CartItem → Result CheckoutError CartQuote
quote env r shop [] = resolve_currency env.config shop >>= λ _. ok (empty_quote env)
quote env r shop (i ∷ is) = do
  _ ← resolve_currency env.config shop
  sold ← quoted shop.products shop.variants (sorted_items (i ∷ is))
  quote_sold env r shop (sorted_items (i ∷ is)) sold
