-- ===== src/Orders/Sell.antt =====
-- The loop of `checkout` over the cart's lines (app/modules/orders/services/order_service.py).
--
-- The loop's accumulators are functions of the list of what is sold, in the loop's order; only the
-- stock that remains is carried along.
use fast_api_e_commerce.Prelude.{
  ℕ, ◌-◌, ◌*◌, Bool, true, false, not, ◌&&◌, ◌||◌, Option, none, some, List, [], ◌∷◌, Result, ok,
  err, ◌>>=◌, ◌>>◌, raise_if, ltb, leb, ◌==◌, if◌then◌else◌, sum, map, is_some, get_or, sub_ℕ,
}
use fast_api_e_commerce.Products.{Product, Variant, Table, Deltas, add_delta, effective_price}
use fast_api_e_commerce.Cart.{
  CartItem, variant_unavailable, product_unavailable, variant_required, insufficient_stock,
}
use fast_api_e_commerce.Orders.Shop.{CheckoutError, cart_error, PriceChange}

-- `<=` of the sort keys `(i.product_id, i.variant_id or 0)`
abbrev key_leb : CartItem → CartItem → Bool
key_leb i j =
    ltb i.product_id j.product_id
    || (i.product_id == j.product_id && leb (get_or i.variant_id 0) (get_or j.variant_id 0))

unfoldable pub insert_line : CartItem → List CartItem → List CartItem
insert_line i [] = i ∷ []
insert_line i (j ∷ js) = elim (key_leb i j) [ true ↦ i ∷ j ∷ js | false ↦ j ∷ insert_line i js ]

-- `sorted(cart.items, key=...)`, which is stable
unfoldable pub sorted_items : List CartItem → List CartItem
sorted_items [] = []
sorted_items (i ∷ is) = insert_line i (sorted_items is)

pub data StockUnit : Type 0 where
  product_unit variant_unit : ℕ → StockUnit

abbrev pub same_unit : StockUnit → StockUnit → Bool
same_unit (product_unit a) (product_unit b) = a == b
same_unit (variant_unit a) (variant_unit b) = a == b
same_unit _ _ = false

-- what a line buys: the unit whose stock it takes, that stock, and the price now
pub record Offer : Type 0 where
  pub unit : StockUnit
  pub stock : ℕ
  pub price_cents : ℕ

unfoldable pub offer_product : ℕ → Option Product → Result CheckoutError Offer
offer_product id none = err (cart_error product_unavailable)
offer_product id (some p) = do
  raise_if (not p.is_active) (cart_error product_unavailable)
  raise_if (ltb 0 p.option_count) (cart_error variant_required)
  ok (record { unit = product_unit id; stock = p.stock; price_cents = p.price_cents })

unfoldable pub offer_variant : ℕ → ℕ → Option Product → Option Variant → Result CheckoutError Offer
offer_variant product_id id (some p) (some v) = do
  raise_if (not (v.product_id == product_id) || not p.is_active || not v.is_active)
      (cart_error variant_unavailable)
  ok (record {
    unit = variant_unit id;
    stock = v.stock;
    price_cents = effective_price v p.price_cents;
  })
offer_variant product_id id _ _ = err (cart_error variant_unavailable)

unfoldable pub offer : Table Product → Table Variant → CartItem → Result CheckoutError Offer
offer products variants i = elim i.variant_id [
  | none ↦ offer_product i.product_id (products i.product_id)
  | some v ↦ offer_variant i.product_id v (products i.product_id) (variants v)
]

-- a line of the cart with the price it is sold at
pub record Sold : Type 0 where
  pub item : CartItem
  pub price_cents : ℕ

-- `remaining_stock`
abbrev pub Remaining : Type 0
Remaining = List (StockUnit × ℕ)

-- `remaining_stock.get(unit, unit_stock)`; the last write to a unit stands first
abbrev pub remaining_of : Remaining → StockUnit → ℕ → ℕ
remaining_of [] unit stock = stock
remaining_of ((u, n) ∷ rest) unit stock =
    if same_unit u unit then n else remaining_of rest unit stock

unfoldable pub sell :
    Table Product → Table Variant → Remaining → List CartItem → Result CheckoutError (List Sold)
sell products variants remaining [] = ok []
sell products variants remaining (i ∷ is) = do
  o ← offer products variants i
  let available = remaining_of remaining o.unit o.stock
  raise_if (ltb available i.quantity) (cart_error (insufficient_stock available))
  rest ← sell products variants ((o.unit, available - i.quantity) ∷ remaining) is
  ok (record { item = i; price_cents = o.price_cents } ∷ rest)

-- `stock_deltas` and `variant_deltas`
unfoldable pub stock_deltas : List Sold → Deltas → Deltas
stock_deltas [] acc = acc
stock_deltas (s ∷ ss) acc = stock_deltas ss (
    if is_some s.item.variant_id
    then acc
    else add_delta s.item.product_id (sub_ℕ 0 s.item.quantity) acc)

unfoldable pub variant_deltas : List Sold → Deltas → Deltas
variant_deltas [] acc = acc
variant_deltas (s ∷ ss) acc =
    variant_deltas ss
      (elim s.item.variant_id [ none ↦ acc | some v ↦ add_delta v (sub_ℕ 0 s.item.quantity) acc ])

-- what each line comes to, and `subtotal_cents`
abbrev pub values_of : List Sold → List ℕ
values_of = map (λ s. s.price_cents * s.item.quantity)

abbrev pub subtotal_of : List Sold → ℕ
subtotal_of sold = sum (values_of sold)

unfoldable pub price_changes : List Sold → List PriceChange
price_changes [] = []
price_changes (s ∷ ss) =
    if s.item.price_cents_snapshot == s.price_cents
    then price_changes ss
    else record {
      product_id = s.item.product_id;
      variant_id = s.item.variant_id;
      old_price_cents = s.item.price_cents_snapshot;
      new_price_cents = s.price_cents;
    }
      ∷ price_changes ss
