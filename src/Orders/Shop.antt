-- ===== src/Orders/Shop.antt =====
-- What checkout and quote read and write (app/modules/orders/services/order_service.py): the shop's
-- rows, its configuration, the request, and the errors.
use fast_api_e_commerce.Prelude.{ℕ, Bool, Option, List}
use fast_api_e_commerce.Orders.Types.{Text, Order, OrderStatus}
use fast_api_e_commerce.Products.{Product, Variant, Table}
use fast_api_e_commerce.Cart.{Carts, Owner, CartError}
use fast_api_e_commerce.Coupons.{Coupon, CouponError}
use fast_api_e_commerce.Tax.Engine.{Engine, Master, TaxError}

-- `ShippingAddressInput`, and the shipping columns of an order that `as_order_columns` makes of it
pub record Address : Type 0 where
  pub recipient_name : Text
  pub line1 : Text
  pub line2 : Option Text
  pub city : Text
  pub state : Text
  pub postal_code : Text
  pub country : Text

pub record SavedAddress : Type 0 where
  pub id : ℕ
  pub user_id : ℕ
  pub is_default : Bool
  pub columns : Address

-- The settings of the service. `fixed_currency` is the code that the service was made with, if any.
pub record Config : Type 0 where
  pub flat_shipping_cents : Option ℕ
  pub free_shipping_threshold_cents : Option ℕ
  pub free_shipping_threshold_basis : Option Text
  pub require_tax_classification : Bool
  pub tax_engine : Engine
  pub fixed_currency : Option Text
  pub default_store_currency : Text

-- A coupon is kept under its code. `store_currency` is the currency of the one row of store_settings. `history` is the rows of order_status_history.
pub record Shop : Type 0 where
  pub products : Table Product
  pub variants : Table Variant
  pub carts : Carts
  pub coupons : List (Text × Coupon)
  pub addresses : List SavedAddress
  pub master : Master
  pub orders : List Order
  pub history : List (ℕ × OrderStatus × OrderStatus)
  pub next_order_item : ℕ
  pub store_currency : Option Text

pub record Request : Type 0 where
  pub owner : Owner
  pub guest_email : Option Text
  pub idempotency_key : ℕ
  pub address_id : Option ℕ
  pub shipping_address : Option Address
  pub coupon_code : Option Text

-- What the JSON of `_request_fingerprint` holds.
pub record Canonical : Type 0 where
  pub address_id : Option ℕ
  pub shipping_address : Option Address
  pub guest_email : Option Text
  pub coupon_code : Option Text

-- What a call takes from outside: the settings, whether the store delivers to an address (a policy of
-- `DeliveryEligibility`), SHA-256 of a text and of the JSON of a request, the time and the date in
-- India, and the new order's UUID.
pub record Env : Type 0 where
  pub config : Config
  pub deliverable : Option Address → Bool
  pub sha256 : Text → ℕ
  pub request_sha256 : Canonical → ℕ
  pub now : ℕ
  pub india_today : ℕ
  pub order_id : ℕ

-- a line of the cart whose price is no longer the one it shows
pub record PriceChange : Type 0 where
  pub product_id : ℕ
  pub variant_id : Option ℕ
  pub old_price_cents : ℕ
  pub new_price_cents : ℕ

-- `stock_check` is the database's refusal of a stock below 0; `missing_row` is Python's error on a row
-- that a foreign key promises, and `out_of_range` is the database's on an integer column.
pub data CheckoutError : Type 0 where
  guest_email_required idempotency_key_conflict checkout_not_configured : CheckoutError
  store_currency_not_configured unsupported_currency shipping_address_required : CheckoutError
  address_not_found delivery_not_available empty_cart stock_check missing_row : CheckoutError
  out_of_range : CheckoutError
  product_tax_unassigned : List ℕ → CheckoutError
  cart_error : CartError → CheckoutError
  price_changed : List PriceChange → ℕ → CheckoutError
  coupon_error : CouponError → CheckoutError
  tax_error : TaxError → CheckoutError
