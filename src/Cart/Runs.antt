-- ===== src/Cart/Runs.antt =====
-- The operations of cart_service.py as steps on the carts.
use fast_api_e_commerce.Prelude.{
  ℕ, ◌<◌, true, Option, none, some, List, [], ok, ◌≡◌, inl, inr, ap, arith, Option-cases, bind_ok,
}
use fast_api_e_commerce.Products.{Product, Variant, Table}
use fast_api_e_commerce.Cart.{
  CartItem, Cart, Carts, Owner, user, guest, owns, get_cart, get_or_create_cart, save_cart,
  resolve_unit, saved, add_item, get_item_by_id, owned_item, update_item_quantity, update_quantity,
  remove_item, without_line, clear_cart, merge_items, merge_guest_cart_into_user,
}
use fast_api_e_commerce.Cart.Lines.{GoodLines, update_quantity-GoodLines, without_line-GoodLines}
use fast_api_e_commerce.Cart.Merge.{merge_items-GoodLines}
use fast_api_e_commerce.Cart.Stocked.{Added, resolve_unit-Sellable, add_line-Added}
use fast_api_e_commerce.Cart.Steps.{
  GoodCarts, save_cart-GoodCarts, delete_cart-GoodCarts, find-GoodLines, get_item_by_id-GoodLines,
  get_or_create_cart-Good, add_item-inv,
}

-- Any sequence of calls that return, the catalogue being any at each call.
pub data CartRun : Carts → Carts → Type 0 where
  done : {a : Carts} → CartRun a a
  then_add_item :
      {a b c : Carts} (products : Table Product) (variants : Table Variant) (owner : Owner)
      (o v : Option ℕ) (n : ℕ) (cart : Cart)
      → CartRun a b
      → 0 < n
      → add_item products variants owner o v n b ≡ ok (cart, c)
      → CartRun a c
  then_update_item_quantity :
      {a b c : Carts} (products : Table Product) (variants : Table Variant) (owner : Owner)
      (id n : ℕ) (cart : Cart)
      → CartRun a b
      → 0 < n
      → update_item_quantity products variants owner id n b ≡ ok (cart, c)
      → CartRun a c
  then_remove_item :
      {a b c : Carts} (owner : Owner) (id : ℕ) (cart : Cart)
      → CartRun a b
      → remove_item owner id b ≡ ok (cart, c)
      → CartRun a c
  then_clear_cart :
      {a b c : Carts} (owner : Owner) (cart : Cart)
      → CartRun a b
      → clear_cart owner b ≡ (cart, c)
      → CartRun a c
  then_merge :
      {a b c : Carts} (user_id guest_token : ℕ)
      → CartRun a b
      → merge_guest_cart_into_user user_id guest_token b ≡ c
      → CartRun a c

saved-GoodCarts :
    (c : Cart) (items : List CartItem) (next : ℕ) (db : Carts)
    → GoodLines items
    → GoodCarts db.carts
    → GoodCarts (saved c items next db).1.carts
saved-GoodCarts c items next db g h = save_cart-GoodCarts (record c { items = items }) db.carts g h

owned_item-ok :
    (owner : Owner) (found : Option (CartItem × Cart)) (r : CartItem × Cart)
    → owned_item owner found ≡ ok r
    → (found ≡ some r) × (owns owner r.1 ≡ true)
owned_item-ok owner none r h = absurd (ground arith)
owned_item-ok owner (some (i, c)) r h = ground arith

add_item-GoodCarts :
    (products : Table Product) (variants : Table Variant) (owner : Owner) (o v : Option ℕ) (n : ℕ)
    (db : Carts) (r : Cart × Carts)
    → 0 < n
    → GoodCarts db.carts
    → add_item products variants owner o v n db ≡ ok r
    → GoodCarts r.1.carts
unfolding Added
add_item-GoodCarts products variants owner o v n db r pos_n g h =
    let (u, result, eu, er, es) = add_item-inv products variants owner o v n db r h in
    let (g1, g2) = get_or_create_cart-Good owner db g in
    let added =
      add_line-Added products variants u n _ _ result g1 pos_n
        (resolve_unit-Sellable products variants o v n u eu) er in
    let (cart, db') = get_or_create_cart owner db in
    let carts : (saved cart result.0 result.1 db').1.carts ≡ r.1.carts = ap (λ x. x.1.carts) es in
    rw carts at (saved-GoodCarts cart result.0 result.1 db' added.0 g2)

update_item_quantity-GoodCarts :
    (products : Table Product) (variants : Table Variant) (owner : Owner) (id n : ℕ) (db : Carts)
    (r : Cart × Carts)
    → 0 < n
    → GoodCarts db.carts
    → update_item_quantity products variants owner id n db ≡ ok r
    → GoodCarts r.1.carts
unfolding update_item_quantity
update_item_quantity-GoodCarts products variants owner id n db r pos_n g h =
    let (ic, e1, h1) = bind_ok (owned_item owner (get_item_by_id id db.carts)) _ h in
    let (i, c) = ic in
    let (u, eu, h2) =
      bind_ok (resolve_unit products variants (some i.product_id) i.variant_id n) _ h1 in
    let (found, _) = owned_item-ok owner _ (i, c) e1 in
    let good = get_item_by_id-GoodLines id db.carts i c g found in
    let s = saved c (update_quantity i.product_id i.variant_id n c.items) db.next_item db in
    let e : s.1.carts ≡ r.1.carts = ground arith in
    rw e at (
      saved-GoodCarts c _ db.next_item db
        (update_quantity-GoodLines i.product_id i.variant_id n c.items pos_n good) g)

remove_item-GoodCarts :
    (owner : Owner) (id : ℕ) (db : Carts) (r : Cart × Carts)
    → GoodCarts db.carts
    → remove_item owner id db ≡ ok r
    → GoodCarts r.1.carts
unfolding remove_item
remove_item-GoodCarts owner id db r g h =
    let (ic, e1, h1) = bind_ok (owned_item owner (get_item_by_id id db.carts)) _ h in
    let (i, c) = ic in
    let (found, _) = owned_item-ok owner _ (i, c) e1 in
    let good = get_item_by_id-GoodLines id db.carts i c g found in
    let s = saved c (without_line i.product_id i.variant_id c.items) db.next_item db in
    let e : s.1.carts ≡ r.1.carts = ground arith in
    rw e at (
      saved-GoodCarts c _ db.next_item db
        (without_line-GoodLines i.product_id i.variant_id c.items good) g)

clear_cart-GoodCarts :
    (owner : Owner) (db : Carts) → GoodCarts db.carts → GoodCarts (clear_cart owner db).1.carts
unfolding clear_cart GoodLines
clear_cart-GoodCarts owner db g =
    let (g1, g2) = get_or_create_cart-Good owner db g in
    let (cart, db') = get_or_create_cart owner db in saved-GoodCarts cart [] db'.next_item db' tt g2

merge-GoodCarts :
    (user_id token : ℕ) (db : Carts)
    → GoodCarts db.carts
    → GoodCarts (merge_guest_cart_into_user user_id token db).carts
unfolding merge_guest_cart_into_user
merge-GoodCarts user_id token db g = elim (Option-cases (get_cart (guest token) db)) [
  | inl h ↦ ground arith
  | inr (gc, h) ↦
      let good_g = find-GoodLines (owns (guest token)) db.carts gc g h in
      elim (Option-cases (get_cart (user user_id) db)) [
        | inl k ↦
            let mine = record gc { user_id = some user_id; guest_token = none } in
            ground (arith, save_cart-GoodCarts mine db.carts good_g g)
        | inr (c, k) ↦
            let good_c = find-GoodLines (owns (user user_id)) db.carts c g k in
            let merged = merge_items c.items gc.items db.next_item in
            let c' = record c { items = merged.0 } in
            let good_m = merge_items-GoodLines c.items gc.items db.next_item good_c good_g in
            ground (
              arith,
              delete_cart-GoodCarts gc (save_cart c' db.carts)
                  (save_cart-GoodCarts c' db.carts good_m g),
            )
      ]
]

-- If in every cart the quantities are positive and no two lines are of one product or variant, then so
-- it is after any sequence of calls that return, with positive quantities asked for.
pub CartRun-GoodCarts : (a b : Carts) → CartRun a b → GoodCarts a.carts → GoodCarts b.carts
CartRun-GoodCarts a b done g = g
CartRun-GoodCarts a b (then_add_item products variants owner o v n cart r pos_n e) g =
    add_item-GoodCarts products variants owner o v n _ (cart, b) pos_n (CartRun-GoodCarts a _ r g) e
CartRun-GoodCarts a b (then_update_item_quantity products variants owner id n cart r pos_n e) g =
    update_item_quantity-GoodCarts products variants owner id n _ (cart, b) pos_n
      (CartRun-GoodCarts a _ r g) e
CartRun-GoodCarts a b (then_remove_item owner id cart r e) g =
    remove_item-GoodCarts owner id _ (cart, b) (CartRun-GoodCarts a _ r g) e
CartRun-GoodCarts a b (then_clear_cart {b = m} owner cart r e) g =
    let p : (clear_cart owner m).1.carts ≡ b.carts = ap (λ x. x.1.carts) e in
    rw p at (clear_cart-GoodCarts owner m (CartRun-GoodCarts a m r g))
CartRun-GoodCarts a b (then_merge {b = m} user_id token r e) g =
    let p : (merge_guest_cart_into_user user_id token m).carts ≡ b.carts = ap (λ x. x.carts) e in
    rw p at (merge-GoodCarts user_id token m (CartRun-GoodCarts a m r g))
