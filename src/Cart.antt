-- ===== src/Cart.antt =====
-- app/modules/cart: the carts, their lines and the operations of cart_service.py on them.
--
-- The two unique indexes of cart_items make a line's product and variant its key within a cart, so an
-- object that the source updates is the line with its key. The service's two optional arguments are
-- one `Owner`, as `get_cart_owner` makes them; ids that the database assigns come from a counter.
pub mod View
pub mod Lines
pub mod Stocked
pub mod Steps
pub mod Runs
pub mod Merge
pub mod Examples
use fast_api_e_commerce.Prelude.{
  ℕ, suc, ◌+◌, Bool, true, false, not, ◌&&◌, ◌||◌, Option, none, some, List, [], ◌∷◌, ◌++◌, Result,
  ok, err, ◌>>=◌, ◌>>◌, raise_if, ltb, leb, ◌==◌, if◌then◌else◌, find, any, select, map, length,
  same_key,
}
use fast_api_e_commerce.Products.{Product, Variant, Table, effective_price}

pub record CartItem : Type 0 where
  pub id : ℕ
  pub product_id : ℕ
  pub variant_id : Option ℕ
  pub quantity : ℕ
  pub price_cents_snapshot : ℕ

pub record Cart : Type 0 where
  pub id : ℕ
  pub user_id : Option ℕ
  pub guest_token : Option ℕ
  pub items : List CartItem

pub record Carts : Type 0 where
  pub carts : List Cart
  pub next_cart : ℕ
  pub next_item : ℕ

pub data Owner : Type 0 where
  user guest : ℕ → Owner

pub data CartError : Type 0 where
  cart_item_not_found product_unavailable variant_required variant_unavailable : CartError
  insufficient_stock cart_full : ℕ → CartError

abbrev pub max_cart_lines : ℕ
max_cart_lines = 50

-- `_owns`
abbrev pub owns : Owner → Cart → Bool
owns (user id) c = same_key c.user_id (some id)
owns (guest token) c = same_key c.guest_token (some token)

abbrev pub new_cart : ℕ → Owner → Cart
new_cart id (user u) = record { id = id; user_id = some u; guest_token = none; items = [] }
new_cart id (guest t) = record { id = id; user_id = none; guest_token = some t; items = [] }

-- `repository.get_cart_by_user_id` and `get_cart_by_guest_token`
abbrev pub get_cart : Owner → Carts → Option Cart
get_cart owner db = find (owns owner) db.carts

unfoldable pub get_or_create_cart : Owner → Carts → Cart × Carts
get_or_create_cart owner db = elim (get_cart owner db) [
  | some c ↦ (c, db)
  | none ↦
      let c = new_cart db.next_cart owner in
      (c, record db { carts = db.carts ++ (c ∷ []); next_cart = suc db.next_cart })
]

-- the row of a cart, written back
abbrev pub save_cart : Cart → List Cart → List Cart
save_cart c [] = []
save_cart c (d ∷ ds) = if d.id == c.id then c ∷ ds else d ∷ save_cart c ds

-- the line of a simple product (no variant) or of one variant
abbrev pub is_line : ℕ → Option ℕ → CartItem → Bool
is_line product_id variant_id i = i.product_id == product_id && same_key i.variant_id variant_id

-- `repository.update_quantity`
unfoldable pub update_quantity : ℕ → Option ℕ → ℕ → List CartItem → List CartItem
update_quantity product_id variant_id quantity [] = []
update_quantity product_id variant_id quantity (i ∷ is) =
    if is_line product_id variant_id i
    then record i { quantity = quantity } ∷ is
    else i ∷ update_quantity product_id variant_id quantity is

-- What `_resolve_unit` returns: the product, the variant and the price now.
pub record SoldUnit : Type 0 where
  pub product_id : ℕ
  pub variant_id : Option ℕ
  pub price_cents : ℕ

-- `product_id is not None and variant.product_id != product_id`
abbrev other_product : Option ℕ → Variant → Bool
other_product none v = false
other_product (some id) v = not (v.product_id == id)

unfoldable pub resolve_variant :
    Table Product → ℕ → Variant → Option ℕ → ℕ → Result CartError SoldUnit
resolve_variant products id v product_id requested = do
  raise_if (other_product product_id v) variant_unavailable
  elim (products v.product_id) [
    | none ↦ err variant_unavailable
    | some p ↦ do
      raise_if (not p.is_active || not v.is_active) variant_unavailable
      raise_if (ltb v.stock requested) (insufficient_stock v.stock)
      ok (record {
        product_id = v.product_id;
        variant_id = some id;
        price_cents = effective_price v p.price_cents;
      })
  ]

unfoldable pub resolve_product : ℕ → Option Product → ℕ → Result CartError SoldUnit
resolve_product id none requested = err product_unavailable
resolve_product id (some p) requested = do
  raise_if (not p.is_active) product_unavailable
  raise_if (ltb 0 p.option_count) variant_required
  raise_if (ltb p.stock requested) (insufficient_stock p.stock)
  ok (record { product_id = id; variant_id = none; price_cents = p.price_cents })

unfoldable pub resolve_unit :
    Table Product → Table Variant → Option ℕ → Option ℕ → ℕ → Result CartError SoldUnit
resolve_unit products variants product_id (some id) requested = elim (variants id) [
  | none ↦ err variant_unavailable
  | some v ↦ resolve_variant products id v product_id requested
]
resolve_unit products variants none none requested = err product_unavailable
resolve_unit products variants (some id) none requested = resolve_product id (products id) requested

abbrev pub new_line : ℕ → SoldUnit → ℕ → CartItem
new_line id u quantity = record {
  id = id;
  product_id = u.product_id;
  variant_id = u.variant_id;
  quantity = quantity;
  price_cents_snapshot = u.price_cents;
}

-- The lines after `add_item`, and the counter of line ids.
unfoldable pub add_line :
    Table Product
    → Table Variant
    → SoldUnit
    → ℕ
    → List CartItem
    → ℕ
    → Result CartError (List CartItem × ℕ)
add_line products variants u quantity items next =
    elim (find (is_line u.product_id u.variant_id) items) [
      | some existing ↦ do
        _ ←
            resolve_unit products variants (some u.product_id) u.variant_id
              (existing.quantity + quantity)
        ok (update_quantity u.product_id u.variant_id (existing.quantity + quantity) items, next)
      | none ↦ do
        raise_if (leb max_cart_lines (length items)) (cart_full max_cart_lines)
        ok (items ++ (new_line next u quantity ∷ []), suc next)
    ]

-- The operations return the cart that `_reload` reads again, and the carts.
abbrev pub saved : Cart → List CartItem → ℕ → Carts → Cart × Carts
saved c items next db =
    let c' = record c { items = items } in
    (c', record db { carts = save_cart c' db.carts; next_item = next })

unfoldable pub add_item :
    Table Product
    → Table Variant
    → Owner
    → Option ℕ
    → Option ℕ
    → ℕ
    → Carts
    → Result CartError (Cart × Carts)
add_item products variants owner product_id variant_id quantity db =
    let (cart, db') = get_or_create_cart owner db in
    do
      u ← resolve_unit products variants product_id variant_id quantity
      (items, next) ← add_line products variants u quantity cart.items db'.next_item
      ok (saved cart items next db')

-- `repository.get_item_by_id`: the line and its cart
abbrev pub get_item_by_id : ℕ → List Cart → Option (CartItem × Cart)
get_item_by_id id [] = none
get_item_by_id id (c ∷ cs) = elim (find (λ i. i.id == id) c.items) [
  | some i ↦ some (i, c)
  | none ↦ get_item_by_id id cs
]

-- the line, if there is one and its cart is the caller's
abbrev pub owned_item : Owner → Option (CartItem × Cart) → Result CartError (CartItem × Cart)
owned_item owner none = err cart_item_not_found
owned_item owner (some (i, c)) = if owns owner c then ok (i, c) else err cart_item_not_found

unfoldable pub update_item_quantity :
    Table Product → Table Variant → Owner → ℕ → ℕ → Carts → Result CartError (Cart × Carts)
update_item_quantity products variants owner item_id quantity db = do
  (i, c) ← owned_item owner (get_item_by_id item_id db.carts)
  _ ← resolve_unit products variants (some i.product_id) i.variant_id quantity
  ok (saved c (update_quantity i.product_id i.variant_id quantity c.items) db.next_item db)

-- the lines without the one that has this key
abbrev pub without_line : ℕ → Option ℕ → List CartItem → List CartItem
without_line product_id variant_id = select (λ i. not (is_line product_id variant_id i))

unfoldable pub remove_item : Owner → ℕ → Carts → Result CartError (Cart × Carts)
remove_item owner item_id db = do
  (i, c) ← owned_item owner (get_item_by_id item_id db.carts)
  ok (saved c (without_line i.product_id i.variant_id c.items) db.next_item db)

unfoldable pub clear_cart : Owner → Carts → Cart × Carts
clear_cart owner db =
    let (cart, db') = get_or_create_cart owner db in saved cart [] db'.next_item db'

-- `existing.quantity += source.quantity`
unfoldable pub increase : CartItem → List CartItem → List CartItem
increase source [] = []
increase source (i ∷ is) =
    if is_line source.product_id source.variant_id i
    then record i { quantity = i.quantity + source.quantity } ∷ is
    else i ∷ increase source is

-- `repository.merge_items_into_cart`, with the counter of line ids
unfoldable pub merge_items : List CartItem → List CartItem → ℕ → List CartItem × ℕ
merge_items items [] next = (items, next)
merge_items items (s ∷ ss) next = elim (any (is_line s.product_id s.variant_id) items) [
  | true ↦ merge_items (increase s items) ss next
  | false ↦ merge_items (items ++ (record s { id = next } ∷ [])) ss (suc next)
]

abbrev pub delete_cart : Cart → List Cart → List Cart
delete_cart c = select (λ d. not (d.id == c.id))

unfoldable pub merge_guest_cart_into_user : ℕ → ℕ → Carts → Carts
merge_guest_cart_into_user user_id guest_token db = elim (get_cart (guest guest_token) db) [
  | none ↦ db
  | some g ↦ elim (get_cart (user user_id) db) [
    | none ↦ record db {
      carts = save_cart (record g { user_id = some user_id; guest_token = none }) db.carts;
    }
    | some c ↦
        let (items, next) = merge_items c.items g.items db.next_item in
        record db {
          carts = delete_cart g (save_cart (record c { items = items }) db.carts);
          next_item = next;
        }
  ]
]
