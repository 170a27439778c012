-- ===== src/Orders/Checkout.antt =====
-- `checkout` of app/modules/orders/services/order_service.py.
--
-- A call that raises is rolled back. The order keeps the columns that the order lifecycle reads; the
-- snapshots and the ledger of stock movements are left out.
use fast_api_e_commerce.Prelude.{
  ℕ, suc, ◌+◌, ◌-◌, Bool, true, false, not, ◌&&◌, Option, none, some, List, [], ◌∷◌, Result, ok,
  err, ◌>>=◌, ◌>>◌, raise_if, leb, ◌==◌, if◌then◌else◌, length, is_some, find, same_key,
}
use fast_api_e_commerce.Orders.Types.{Order, OrderItem, OrderStatus, Text}
use fast_api_e_commerce.Money.{Currency, get_currency}
use fast_api_e_commerce.Products.{
  Product, Variant, Table, adjust_stock_many, adjust_variant_stock_many,
}
use fast_api_e_commerce.Cart.{
  Cart, CartItem, Carts, Owner, user, guest, get_or_create_cart, save_cart,
}
use fast_api_e_commerce.Cart.View.{cart_digest}
use fast_api_e_commerce.Coupons.{Coupon, has_email}
use fast_api_e_commerce.Tax.Engine.{Engine, gst, classification_approved}
use fast_api_e_commerce.Orders.Shop.{
  Address, Config, Shop, Request, Env, CheckoutError, guest_email_required,
  idempotency_key_conflict, checkout_not_configured, store_currency_not_configured,
  unsupported_currency, delivery_not_available, empty_cart, stock_check, product_tax_unassigned,
  price_changed, out_of_range,
}
use fast_api_e_commerce.Orders.Sell.{
  Sold, sorted_items, sell, stock_deltas, variant_deltas, subtotal_of, price_changes,
}
use fast_api_e_commerce.Orders.Price.{
  pricing_configured, calculate_shipping, user_of, email_of, given_code, Reduction, reduce,
  calculate_order_tax, resolve_shipping_snapshot,
}

-- `_request_fingerprint`
abbrev pub request_fingerprint : Env → Request → ℕ
request_fingerprint env r = env.request_sha256 (record {
  address_id = r.address_id;
  shipping_address = r.shipping_address;
  guest_email = email_of r;
  coupon_code = given_code r.coupon_code;
})

-- `repository.get_by_idempotency_key`
abbrev pub same_identity : Owner → Order → Bool
same_identity (user u) o = same_key o.user_id (some u)
same_identity (guest t) o = same_key o.guest_token (some t)

abbrev pub get_by_idempotency_key : Owner → ℕ → List Order → Option Order
get_by_idempotency_key owner key = find (λ o. o.idempotency_key == key && same_identity owner o)

-- `effective_currency` of app/modules/store/repositories/store_repository.py
abbrev pub effective_currency : Config → Shop → Option Text
effective_currency config shop = elim shop.store_currency [
  | some code ↦ some code
  | none ↦ elim shop.orders [ [] ↦ some config.default_store_currency | _ ∷ _ ↦ none ]
]

abbrev pub currency_code : Config → Shop → Option Text
currency_code config shop = elim config.fixed_currency [
  | some code ↦ some code
  | none ↦ effective_currency config shop
]

-- what the row of store_settings holds once `get_or_initialize_currency` was called for a checkout
unfoldable pub initialized_currency : Config → Shop → Option Text
initialized_currency config shop = elim config.fixed_currency [
  | some code ↦ shop.store_currency
  | none ↦ effective_currency config shop
]

-- the currency of `_resolve_currency`; the row that it may write is `initialized_currency`
unfoldable pub resolve_currency : Config → Shop → Result CheckoutError Currency
resolve_currency config shop = elim (currency_code config shop) [
  | none ↦ err store_currency_not_configured
  | some code ↦ elim (get_currency code) [ ok c ↦ ok c | err e ↦ err unsupported_currency ]
]

-- a recorded hash that is another one
abbrev pub differs : Option ℕ → ℕ → Bool
differs none hash = false
differs (some h) hash = not (h == hash)

-- the waiting cart against the one that the order was made from
unfoldable pub replay_cart :
    Env → Shop → Order → ℕ → Cart × Carts → Result CheckoutError (Order × Shop)
replay_cart env shop existing digest (waiting, carts) = elim waiting.items [
  | [] ↦ ok (existing, record shop { carts = carts })
  | i ∷ is ↦ do
    raise_if (not (cart_digest env.sha256 (i ∷ is) == digest)) idempotency_key_conflict
    ok (existing, record shop { carts = carts })
]

-- a request under a key that has an order
unfoldable pub replay : Env → Request → Shop → Order → Result CheckoutError (Order × Shop)
replay env r shop existing = do
  raise_if (differs existing.request_hash (request_fingerprint env r)) idempotency_key_conflict
  elim existing.cart_digest [
    | none ↦ ok (existing, shop)
    | some digest ↦ replay_cart env shop existing digest (get_or_create_cart r.owner shop.carts)
  ]

-- the product of a line is not locked, or has an approved classification (`tax_states`)
abbrev tax_ready : Shop → ℕ → Bool
tax_ready shop id = elim (shop.products id) [
  | none ↦ true
  | some p ↦ elim p.classification_id [
    | none ↦ false
    | some c ↦ classification_approved shop.master c
  ]
]

-- once, where the next line is of the same product
abbrev add_id : ℕ → List ℕ → List ℕ
add_id id [] = id ∷ []
add_id id (j ∷ js) = if j == id then j ∷ js else id ∷ j ∷ js

-- the products of the lines, which stand in the order of their products, that are not ready
unfoldable pub untaxed : Shop → List CartItem → List ℕ
untaxed shop [] = []
untaxed shop (i ∷ is) =
    let rest = untaxed shop is in
    if tax_ready shop i.product_id then rest else add_id i.product_id rest

abbrev pub not_empty : {A : Type 0} → List A → Bool
not_empty [] = false
not_empty (_ ∷ _) = true

-- What is sold, once every line is checked and no price has changed.
unfoldable pub sell_cart : Env → Shop → List CartItem → Result CheckoutError (List Sold)
sell_cart env shop items = do
  let missing = untaxed shop items
  raise_if (env.config.require_tax_classification && not_empty missing)
      (product_tax_unassigned missing)
  sold ← sell shop.products shop.variants [] items
  raise_if (not_empty (price_changes sold)) (price_changed (price_changes sold) (subtotal_of sold))
  ok sold

-- `order_items_data`, with the ids that the database gives
unfoldable pub order_items : ℕ → List Sold → List ℕ → List OrderItem
order_items next (s ∷ ss) (share ∷ shares) =
    record {
      id = next;
      product_id = s.item.product_id;
      variant_id = s.item.variant_id;
      quantity = s.item.quantity;
      price_cents_snapshot = s.price_cents;
      discount_cents = share;
      restocked_quantity = 0;
    }
    ∷ order_items (suc next) ss shares
order_items next _ _ = []

abbrev coupon_id_of : Option Coupon → Option ℕ
coupon_id_of none = none
coupon_id_of (some c) = some c.id

abbrev pub token_of : Owner → Option ℕ
token_of (user _) = none
token_of (guest t) = some t

-- `is_gst_order` of the snapshot that the engine makes
abbrev pub is_gst : Engine → Bool
is_gst (gst _) = true
is_gst _ = false

-- The order that `create_order` writes.
unfoldable pub new_order : Env → Request → Shop → ℕ → Currency → List Sold → Reduction → ℕ → Order
new_order env r shop digest currency sold reduction tax = record {
  id = env.order_id;
  user_id = user_of r.owner;
  guest_token = token_of r.owner;
  guest_email = email_of r;
  status = OrderStatus.pending;
  idempotency_key = r.idempotency_key;
  request_hash = some (request_fingerprint env r);
  cart_digest = some digest;
  currency = some currency.code;
  subtotal_cents = subtotal_of sold;
  discount_cents = reduction.goods_cents;
  coupon_id = coupon_id_of reduction.coupon;
  shipping_cents = reduction.shipping_cents;
  tax_cents = tax;
  total_cents = subtotal_of sold - reduction.goods_cents + reduction.shipping_cents + tax;
  gst_order = is_gst env.config.tax_engine;
  paid_in_demo_mode = false;
  stock_released = false;
  items = order_items shop.next_order_item sold reduction.shares;
}

abbrev pub or_stock_check : {A : Type 0} → Option A → Result CheckoutError A
or_stock_check none = err stock_check
or_stock_check (some a) = ok a

-- the integer columns of the orders and their lines are of 4 bytes
abbrev pub fits_column : ℕ → Bool
fits_column n = leb n 2147483647

unfoldable pub items_fit : List OrderItem → Bool
items_fit [] = true
items_fit (i ∷ is) =
    fits_column i.quantity
    && fits_column i.price_cents_snapshot
    && fits_column i.discount_cents
    && items_fit is

unfoldable pub order_fits : Order → Bool
unfolding items_fit
order_fits o =
    fits_column o.subtotal_cents
    && fits_column o.discount_cents
    && fits_column o.shipping_cents
    && fits_column o.tax_cents
    && fits_column o.total_cents
    && items_fit o.items

-- the shop with the order, its lines' stock taken and its cart cleared, and with the store's currency
unfoldable pub after_order :
    Option Text → Shop → Cart → Carts → Table Product → Table Variant → Order → Shop
after_order code shop cart carts products variants o = record shop {
  store_currency = code;
  products = products;
  variants = variants;
  carts = record carts { carts = save_cart (record cart { items = [] }) carts.carts };
  orders = o ∷ shop.orders;
  history = (o.id, OrderStatus.pending, OrderStatus.pending) ∷ shop.history;
  next_order_item = shop.next_order_item + length o.items;
}

-- stock, order, history and cart, once everything is priced
unfoldable pub commit_order :
    Env → Request → Shop → Cart → Carts → List Sold → Order → Result CheckoutError (Order × Shop)
commit_order env r shop cart carts sold o = do
  products ← or_stock_check (adjust_stock_many shop.products (stock_deltas sold []))
  variants ← or_stock_check (adjust_variant_stock_many shop.variants (variant_deltas sold []))
  raise_if (not (order_fits o)) out_of_range
  ok (o, after_order (initialized_currency env.config shop) shop cart carts products variants o)

-- the lines, priced, and the order made of them
unfoldable pub place :
    Env
    → Request
    → Shop
    → Currency
    → Option Address
    → Cart
    → Carts
    → Result CheckoutError (Order × Shop)
place env r shop currency columns cart carts = do
  sold ← sell_cart env shop (sorted_items cart.items)
  shipping ← calculate_shipping env.config (subtotal_of sold)
  reduction ← reduce env r shop sold shipping
  tax ← calculate_order_tax env shop sold reduction columns
  commit_order env r shop cart carts sold
      (new_order env r shop (cart_digest env.sha256 cart.items) currency sold reduction tax)

-- a request under a new key
unfoldable pub checkout_new : Env → Request → Shop → Result CheckoutError (Order × Shop)
checkout_new env r shop = do
  raise_if (not (pricing_configured env.config)) checkout_not_configured
  currency ← resolve_currency env.config shop
  columns ← resolve_shipping_snapshot shop r.owner r.address_id r.shipping_address
  raise_if (not (env.deliverable columns)) delivery_not_available
  let (cart, carts) = get_or_create_cart r.owner shop.carts
  raise_if (not (not_empty cart.items)) empty_cart
  place env r shop currency columns cart carts

unfoldable pub checkout : Env → Request → Shop → Result CheckoutError (Order × Shop)
checkout env r shop = do
  raise_if (not (is_some (user_of r.owner)) && not (has_email r.guest_email)) guest_email_required
  elim (get_by_idempotency_key r.owner r.idempotency_key shop.orders) [
    | some existing ↦ replay env r shop existing
    | none ↦ checkout_new env r shop
  ]
