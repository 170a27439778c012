-- ===== src/Orders/Examples.antt =====
-- A shop with two products, one of them sold by variants, and a customer who checks out.
use fast_api_e_commerce.Prelude.{
  true, false, none, some, List, [], ◌∷◌, Result, ok, err, ◌≡◌, refl, arith, sum, ◌+ℤ◌,
}
use fast_api_e_commerce.Orders.Types.{Order, OrderStatus}
use fast_api_e_commerce.Money.{Currency, get_currency}
use fast_api_e_commerce.Products.{
  Product, Variant, Table, update, add_delta, adjust_stock_many, adjust_variant_stock_many,
}
use fast_api_e_commerce.Cart.{Cart, CartItem, user, get_or_create_cart}
use fast_api_e_commerce.Cart.View.{cart_digest}
use fast_api_e_commerce.Tax.Allocate.{allocate}
use fast_api_e_commerce.Tax.Gst.{half_up}
use fast_api_e_commerce.Orders.Sell.{
  sell, sorted_items, insert_line, offer, offer_product, offer_variant, price_changes, Sold,
  subtotal_of, stock_deltas, variant_deltas,
}
use fast_api_e_commerce.Orders.Price.{
  calculate_shipping, Reduction, no_reduction, reduce, reduce_by, reduce_code, tax_lines,
  calculate_order_tax, resolve_shipping_snapshot,
}
use fast_api_e_commerce.Coupons.{
  Coupon, percentage, evaluate, normalise_code, compute_discount, share_discount, uses,
}
use fast_api_e_commerce.Tax.Engine.{flat_interim, calculate_tax}
use fast_api_e_commerce.Orders.Shop.{Address, Shop, Request, Env, CheckoutError, price_changed}
use fast_api_e_commerce.Orders.Checkout.{
  checkout_new, checkout, resolve_currency, place, sell_cart, untaxed, order_items, new_order,
  after_order, commit_order, order_fits, items_fit, initialized_currency,
}
use fast_api_e_commerce.Orders.Stock.Moved.{StockMoved, checkout_new-moved, place-total}
use fast_api_e_commerce.Orders.Replay.{checkout_again}
use fast_api_e_commerce.Orders.Quote.{CartQuote, quote}
use fast_api_e_commerce.Orders.Quote.Lines.{Positive}
use fast_api_e_commerce.Orders.Quote.Agrees.{Agrees, checkout_new-quoted}
use fast_api_e_commerce.Orders.Once.{UniqueKeys, checkout-UniqueKeys}
use fast_api_e_commerce.Orders.Totals.{Balanced, checkout_new-Balanced}

abbrev home : Address
home = record {
  recipient_name = b'A' ∷ [];
  line1 = b'1' ∷ [];
  line2 = none;
  city = b'C' ∷ [];
  state = b'K' ∷ b'e' ∷ b'r' ∷ b'a' ∷ b'l' ∷ b'a' ∷ [];
  postal_code = b'6' ∷ [];
  country = b'i' ∷ b'n' ∷ [];
}

abbrev lamp : Product
lamp = record {
  price_cents = 19900;
  stock = 5;
  option_count = 0;
  classification_id = none;
  is_active = true;
}

abbrev shirt : Product
shirt = record {
  price_cents = 4500;
  stock = 0;
  option_count = 1;
  classification_id = none;
  is_active = true;
}

abbrev red : Variant
red = record { product_id = 2; price_override_cents = none; stock = 3; is_active = true }

abbrev no_products : Table Product
no_products _ = none

abbrev no_variants : Table Variant
no_variants _ = none

abbrev two_lines : List CartItem
two_lines =
    record {
      id = 11;
      product_id = 2;
      variant_id = some 7;
      quantity = 2;
      price_cents_snapshot = 4500;
    }
    ∷ record {
      id = 12;
      product_id = 1;
      variant_id = none;
      quantity = 1;
      price_cents_snapshot = 19900;
    }
    ∷ []

abbrev cart : Cart
cart = record { id = 1; user_id = some 5; guest_token = none; items = two_lines }

abbrev tenth : Coupon
tenth = record {
  id = 3;
  kind = percentage;
  percent_off = some 1000;
  amount_off_cents = none;
  max_discount_cents = none;
  min_subtotal_cents = 0;
  starts_at = none;
  ends_at = none;
  max_uses_total = none;
  max_uses_per_customer = some 1;
  active = true;
}

abbrev shop : Shop
shop = record {
  products = update (update no_products 1 lamp) 2 shirt;
  variants = update no_variants 7 red;
  carts = record { carts = cart ∷ []; next_cart = 2; next_item = 13 };
  coupons = (b'T' ∷ b'E' ∷ b'N' ∷ [], tenth) ∷ [];
  addresses = record { id = 4; user_id = 5; is_default = true; columns = home } ∷ [];
  master = record { classifications = []; rules = []; registrations = []; settings = [] };
  orders = [];
  history = [];
  next_order_item = 21;
  store_currency = none;
}

abbrev env : Env
env = record {
  config = record {
    flat_shipping_cents = some 5000;
    free_shipping_threshold_cents = some 100000;
    free_shipping_threshold_basis = some (b'n' ∷ []);
    require_tax_classification = false;
    tax_engine = flat_interim 18 0;
    fixed_currency = none;
    default_store_currency = b'i' ∷ b'n' ∷ b'r' ∷ [];
  };
  deliverable = λ _. true;
  sha256 = λ text. sum text;
  request_sha256 = λ c. 0;
  now = 100;
  india_today = 20000;
  order_id = 9;
}

abbrev request : Request
request = record {
  owner = user 5;
  guest_email = none;
  idempotency_key = 77;
  address_id = some 4;
  shipping_address = none;
  coupon_code = some (b' ' ∷ b't' ∷ b'e' ∷ b'n' ∷ []);
}

abbrev blank : Order
blank = record {
  id = 0;
  user_id = none;
  guest_token = none;
  guest_email = none;
  status = OrderStatus.pending;
  idempotency_key = 0;
  request_hash = none;
  cart_digest = none;
  currency = none;
  subtotal_cents = 0;
  discount_cents = 0;
  coupon_id = none;
  shipping_cents = 0;
  tax_cents = 0;
  total_cents = 0;
  gst_order = false;
  paid_in_demo_mode = false;
  stock_released = false;
  items = [];
}

abbrev value_of : {E A : Type 0} → Result E A → A → A
value_of (ok a) _ = a
value_of (err _) d = d

placed : Order × Shop
placed = value_of (checkout_new env request shop) (blank, shop)

-- 28,900 of goods, 2,890 off, 5,000 of shipping and 18% of tax on the goods
placed_run :
    (checkout env request shop ≡ ok placed)
    × (checkout_new env request shop ≡ ok placed)
    × (placed.0.total_cents ≡ 35692)
    × (placed.0.subtotal_cents ≡ 28900)
unfolding checkout placed checkout_new resolve_currency get_currency resolve_shipping_snapshot
    get_or_create_cart place sell_cart sell sorted_items insert_line offer offer_product
    offer_variant price_changes calculate_shipping reduce evaluate normalise_code cart_digest
    compute_discount share_discount uses after_order commit_order order_fits items_fit
    initialized_currency new_order order_items untaxed calculate_order_tax reduce_by reduce_code
    tax_lines stock_deltas variant_deltas ◌+ℤ◌ add_delta adjust_stock_many adjust_variant_stock_many
    allocate calculate_tax half_up
placed_run = (refl, refl, refl, refl)

checkout_new-Balanced_example : Balanced placed.0
checkout_new-Balanced_example =
    checkout_new-Balanced env request shop placed placed_run.1 (rw placed_run.3 (omega arith))

checkout_new-moved_example : StockMoved shop placed.0.items placed.1
checkout_new-moved_example = checkout_new-moved env request shop placed placed_run.1

-- another day, with another charge for shipping
abbrev later : Env
later = record env { now = 90000; config = record env.config { flat_shipping_cents = some 9900 } }

checkout_again_example : checkout later request placed.1 ≡ ok placed
checkout_again_example = checkout_again env later request shop placed placed_run.0 refl refl

all-Positive : Positive (get_or_create_cart (user 5) shop.carts).0.items
unfolding Positive get_or_create_cart
all-Positive = (omega arith, (omega arith, tt))

no_keys : UniqueKeys shop.orders
unfolding UniqueKeys
no_keys = tt

checkout_new-quoted_example :
    (q : CartQuote) × (quote env request shop (get_or_create_cart (user 5) shop.carts).0.items
      ≡ ok q)
    × Agrees q placed.0
checkout_new-quoted_example = checkout_new-quoted env request shop placed all-Positive placed_run.1

checkout-UniqueKeys_example : UniqueKeys placed.1.orders
checkout-UniqueKeys_example = checkout-UniqueKeys env request shop placed no_keys placed_run.0

-- the lamp has become dearer
abbrev stale : Shop
stale = record shop { products = update shop.products 1 (record lamp { price_cents = 20000 }) }

abbrev dearer : CheckoutError
dearer =
    price_changed
      (record {
        product_id = 1;
        variant_id = none;
        old_price_cents = 19900;
        new_price_cents = 20000;
      }
        ∷ [])
      29000

abbrev rupee : Currency
rupee = record { code = b'i' ∷ b'n' ∷ b'r' ∷ []; exponent = 2; payment_verified = true }

priced : List Sold × Reduction
priced =
    let sold = value_of (sell_cart env shop (sorted_items two_lines)) [] in
    (sold, value_of (reduce env request shop sold 5000) (no_reduction sold 0))

priced_run :
    (sell_cart env shop (sorted_items cart.items) ≡ ok priced.0)
    × (calculate_shipping env.config (subtotal_of priced.0) ≡ ok 5000)
    × (reduce env request shop priced.0 5000 ≡ ok priced.1)
    × (calculate_order_tax env shop priced.0 priced.1 (some home) ≡ ok 4682)
    × (order_fits (
          new_order env request shop
            (cart_digest env.sha256 cart.items)
            rupee
            priced.0
            priced.1
            4682)
        ≡ true)
unfolding priced checkout_new resolve_currency get_currency resolve_shipping_snapshot
    get_or_create_cart place sell_cart sell sorted_items insert_line offer offer_product
    offer_variant price_changes calculate_shipping reduce evaluate normalise_code cart_digest
    compute_discount share_discount uses after_order commit_order order_fits items_fit
    initialized_currency new_order order_items untaxed calculate_order_tax reduce_by reduce_code
    tax_lines stock_deltas variant_deltas ◌+ℤ◌ add_delta adjust_stock_many adjust_variant_stock_many
    allocate calculate_tax half_up
priced_run = (refl, refl, refl, refl, refl)

place-total_example :
    (p : Order × Shop) × (place env request shop rupee (some home) cart shop.carts ≡ ok p)
place-total_example =
    place-total env request shop rupee (some home) cart shop.carts priced.0 5000 priced.1 4682
      priced_run.0 priced_run.1 priced_run.2 priced_run.3 priced_run.4
