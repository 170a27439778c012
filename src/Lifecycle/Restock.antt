-- ===== src/Lifecycle/Restock.antt =====
-- `_restock_once`: the stock of an order is put back, line by line, once.
use fast_api_e_commerce.Prelude.{
  ℕ, ◌-◌, Bool, true, false, not, ◌&&◌, Option, none, some, List, [], ◌∷◌, ◌++◌, Result, ok, err,
  ◌>>=◌, ltb, ◌==◌, if◌then◌else◌, any, is_some, pos,
}
use fast_api_e_commerce.Orders.Types.{Order, OrderItem}
use fast_api_e_commerce.Products.{
  Product, Variant, Table, Deltas, add_delta, update, adjust_stock_many, adjust_variant_stock_many,
}
use fast_api_e_commerce.Lifecycle.Db.{Db, Error, runtime_error}

-- `item.quantity - (item.restocked_quantity or 0)`, 0 where it is not positive
abbrev pub remaining : OrderItem → ℕ
remaining i = i.quantity - i.restocked_quantity

-- a line without a variant whose product is now sold by variants
abbrev gained_options : Table Product → OrderItem → Bool
gained_options products i =
    not (is_some i.variant_id)
    && elim (products i.product_id) [ none ↦ false | some p ↦ ltb 0 p.option_count ]

-- `pending`: the lines not yet fully back in stock
pending_lines : Table Product → List OrderItem → Result Error (List OrderItem)
pending_lines products [] = ok []
pending_lines products (i ∷ is) =
    if remaining i == 0
    then pending_lines products is
    else if gained_options products i
    then err runtime_error
    else pending_lines products is >>= λ rest. ok (i ∷ rest)

abbrev pub contains : ℕ → List ℕ → Bool
contains a = any (λ b. b == a)

-- `record_restock_events` with the event "order-release": the lines whose event is new
new_lines : List ℕ → List OrderItem → List OrderItem
new_lines released [] = []
new_lines released (i ∷ is) =
    if contains i.id released then new_lines released is else i ∷ new_lines (i.id ∷ released) is

abbrev ids_of : List OrderItem → List ℕ
ids_of [] = []
ids_of (i ∷ is) = i.id ∷ ids_of is

-- `restock`: what goes back to each product
unfoldable pub product_deltas : Table Product → List OrderItem → Deltas → Deltas
unfolding add_delta
product_deltas products [] acc = acc
product_deltas products (i ∷ is) acc = product_deltas products is (
    if not (is_some i.variant_id) && is_some (products i.product_id)
    then add_delta i.product_id (pos (remaining i)) acc
    else acc)

-- `variant_restock`
unfoldable pub variant_deltas : Table Variant → List OrderItem → Deltas → Deltas
unfolding add_delta
variant_deltas variants [] acc = acc
variant_deltas variants (i ∷ is) acc = variant_deltas variants is (elim i.variant_id [
  | none ↦ acc
  | some v ↦ if is_some (variants v) then add_delta v (pos (remaining i)) acc else acc
])

-- a line whose event is recorded is fully restocked (the trigger adds what was recorded)
mark_restocked : List ℕ → List OrderItem → List OrderItem
mark_restocked lines [] = []
mark_restocked lines (i ∷ is) =
    (if contains i.id lines then record i { restocked_quantity = i.quantity } else i)
    ∷ mark_restocked lines is

abbrev or_runtime_error : {A : Type 0} → Option A → Result Error A
or_runtime_error none = err runtime_error
or_runtime_error (some a) = ok a

-- the order with its stock released
abbrev pub released : Order → List OrderItem → Order
unfolding mark_restocked
released o fresh = record o { stock_released = true; items = mark_restocked (ids_of fresh) o.items }

-- The order as it then is, and the rows. The tables are read before anything is written.
unfoldable pub restock_once : Order → Db → Result Error (Order × Db)
unfolding pending_lines new_lines product_deltas variant_deltas adjust_stock_many
    adjust_variant_stock_many mark_restocked
restock_once o db = if o.stock_released then ok (o, db) else do
  lines ← pending_lines db.products o.items
  let fresh = new_lines db.released_lines lines
  products ← or_runtime_error (adjust_stock_many db.products (product_deltas db.products fresh []))
  variants ←
      or_runtime_error (adjust_variant_stock_many db.variants (variant_deltas db.variants fresh []))
  let o' = released o fresh
  ok (
    o',
    record db {
      products = products;
      variants = variants;
      released_lines = ids_of fresh ++ db.released_lines;
      orders = update db.orders o.id o';
    },
  )
