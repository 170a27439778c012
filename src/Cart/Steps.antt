-- ===== src/Cart/Steps.antt =====
-- Good carts: what saving, finding and adding keep of them.
use fast_api_e_commerce.Prelude.{
  max, ℕ, ◌≤◌, ◌<◌, Bool, Option, some, List, [], ◌∷◌, ◌++◌, ok, ◌≡◌, inl, inr, ap, arith, length,
  Option-cases, find, bind_ok,
}
use fast_api_e_commerce.Products.{Product, Variant, Table}
use fast_api_e_commerce.Cart.{
  CartItem, Cart, Carts, Owner, user, guest, SoldUnit, owns, new_cart, get_cart, get_or_create_cart,
  save_cart, resolve_unit, add_line, saved, add_item, get_item_by_id, delete_cart, max_cart_lines,
}
use fast_api_e_commerce.Cart.Lines.{GoodLines}
use fast_api_e_commerce.Cart.Stocked.{Added, resolve_unit-Sellable, add_line-Added, length-add_line}

-- the lines of every cart are good
unfoldable pub GoodCarts : List Cart → Type 0
GoodCarts [] = Unit
GoodCarts (c ∷ cs) = GoodLines c.items × GoodCarts cs

pub save_cart-GoodCarts :
    (c : Cart) (cs : List Cart) → GoodLines c.items → GoodCarts cs → GoodCarts (save_cart c cs)
unfolding GoodCarts
save_cart-GoodCarts c [] g h = tt
save_cart-GoodCarts c (d ∷ ds) g (a, b) = ground (arith, save_cart-GoodCarts c ds g b)

append-GoodCarts :
    (c : Cart) (cs : List Cart) → GoodLines c.items → GoodCarts cs → GoodCarts (cs ++ (c ∷ []))
unfolding GoodCarts
append-GoodCarts c [] g h = (g, tt)
append-GoodCarts c (d ∷ ds) g (a, b) = (a, append-GoodCarts c ds g b)

pub delete_cart-GoodCarts :
    (c : Cart) (cs : List Cart) → GoodCarts cs → GoodCarts (delete_cart c cs)
unfolding GoodCarts
delete_cart-GoodCarts c [] h = tt
delete_cart-GoodCarts c (d ∷ ds) (a, b) = ground (arith, delete_cart-GoodCarts c ds b)

pub find-GoodLines :
    (p : Cart → Bool) (cs : List Cart) (c : Cart)
    → GoodCarts cs
    → find p cs ≡ some c
    → GoodLines c.items
unfolding GoodCarts
find-GoodLines p [] c g h = absurd (ground arith)
find-GoodLines p (d ∷ ds) c (a, b) h = ground (arith, find-GoodLines p ds c b)

pub get_item_by_id-GoodLines :
    (id : ℕ) (cs : List Cart) (i : CartItem) (c : Cart)
    → GoodCarts cs
    → get_item_by_id id cs ≡ some (i, c)
    → GoodLines c.items
unfolding GoodCarts
get_item_by_id-GoodLines id [] i c g h = absurd (ground arith)
get_item_by_id-GoodLines id (d ∷ ds) i c (a, b) h =
    ground (arith, get_item_by_id-GoodLines id ds i c b)

new_cart-GoodLines : (id : ℕ) (owner : Owner) → GoodLines (new_cart id owner).items
unfolding GoodLines
new_cart-GoodLines id (user u) = tt
new_cart-GoodLines id (guest t) = tt

pub get_or_create_cart-Good :
    (owner : Owner) (db : Carts)
    → GoodCarts db.carts
    → GoodLines (get_or_create_cart owner db).0.items
      × GoodCarts (get_or_create_cart owner db).1.carts
unfolding get_or_create_cart
get_or_create_cart-Good owner db g = elim (Option-cases (get_cart owner db)) [
  | inl h ↦
      let n = new_cart-GoodLines db.next_cart owner in
      ground (arith, append-GoodCarts (new_cart db.next_cart owner) db.carts n g)
  | inr (c, h) ↦ ground (arith, find-GoodLines (owns owner) db.carts c g h)
]

-- what a successful `add_item` comes from
pub add_item-inv :
    (products : Table Product) (variants : Table Variant) (owner : Owner) (o v : Option ℕ) (n : ℕ)
    (db : Carts) (r : Cart × Carts)
    → add_item products variants owner o v n db ≡ ok r
    → let (cart, db') = get_or_create_cart owner db in
      (u : SoldUnit) × (result : List CartItem × ℕ) × (resolve_unit products variants o v n ≡ ok u)
      × (add_line products variants u n cart.items db'.next_item ≡ ok result)
      × (saved cart result.0 result.1 db' ≡ r)
unfolding add_item
add_item-inv products variants owner o v n db r h =
    let (u, eu, h2) = bind_ok (resolve_unit products variants o v n) _ h in
    let (result, er, h3) = bind_ok (add_line products variants u n _ _) _ h2 in
    (u, result, eu, er, ground arith)

-- If a positive quantity is added to carts with good lines, and that returns, then the unit is for sale
-- and its stock covers what the cart then holds of it, which is as much more as was asked for and as
-- before of everything else; the lines stay good, and are at most 50 or no more than they were.
pub add_item-Added :
    (products : Table Product) (variants : Table Variant) (owner : Owner) (o v : Option ℕ) (n : ℕ)
    (db : Carts) (r : Cart × Carts)
    → 0 < n
    → GoodCarts db.carts
    → add_item products variants owner o v n db ≡ ok r
    → (u : SoldUnit) × (resolve_unit products variants o v n ≡ ok u)
      × Added products variants u n (get_or_create_cart owner db).0.items r.0.items
      × (length r.0.items ≤ max max_cart_lines (length (get_or_create_cart owner db).0.items))
add_item-Added products variants owner o v n db r pos_n g h =
    let (u, result, eu, er, es) = add_item-inv products variants owner o v n db r h in
    let (g1, _) = get_or_create_cart-Good owner db g in
    let lines : result.0 ≡ r.0.items = ap (λ x. x.0.items) es in
    let added =
      add_line-Added products variants u n _ _ result g1 pos_n
        (resolve_unit-Sellable products variants o v n u eu) er in
    (u, eu, rw lines at added, rw lines at (length-add_line products variants u n _ _ result er))
