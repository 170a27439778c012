-- ===== src/Cart/Examples.antt =====
-- A cart that is filled, and a guest's cart that joins it.
use fast_api_e_commerce.Prelude.{
  max, ℕ, ◌≤◌, true, none, some, [], ◌∷◌, ok, ◌≡◌, refl, arith, length,
}
use fast_api_e_commerce.Products.{Product, Variant, Table, update}
use fast_api_e_commerce.Cart.{
  CartItem, Cart, Carts, guest, SoldUnit, get_or_create_cart, resolve_unit, resolve_product,
  add_line, add_item, update_quantity, merge_items, max_cart_lines,
}
use fast_api_e_commerce.Cart.Lines.{quantity_of}
use fast_api_e_commerce.Cart.Merge.{quantity_of-merge_items}
use fast_api_e_commerce.Cart.Stocked.{Added}
use fast_api_e_commerce.Cart.Steps.{GoodCarts, add_item-Added}
use fast_api_e_commerce.Cart.Runs.{CartRun, done, then_add_item, CartRun-GoodCarts}

abbrev lamp : Product
lamp = record {
  price_cents = 19900;
  stock = 5;
  option_count = 0;
  classification_id = none;
  is_active = true;
}

abbrev products : Table Product
products = update (λ _. none) 1 lamp

abbrev variants : Table Variant
variants _ = none

abbrev no_carts : Carts
no_carts = record { carts = []; next_cart = 1; next_item = 10 }

abbrev lamps : ℕ → CartItem
lamps n = record {
  id = 10;
  product_id = 1;
  variant_id = none;
  quantity = n;
  price_cents_snapshot = 19900;
}

abbrev guest_cart : ℕ → Cart
guest_cart n = record { id = 1; user_id = none; guest_token = some 8; items = lamps n ∷ [] }

abbrev filled : ℕ → Carts
filled n = record { carts = guest_cart n ∷ []; next_cart = 2; next_item = 11 }

first_lamps :
    add_item products variants (guest 8) (some 1) none 2 no_carts ≡ ok (guest_cart 2, filled 2)
unfolding add_item get_or_create_cart resolve_unit resolve_product add_line
first_lamps = refl

more_lamps :
    add_item products variants (guest 8) (some 1) none 3 (filled 2) ≡ ok (guest_cart 5, filled 5)
unfolding add_item get_or_create_cart resolve_unit resolve_product add_line update_quantity
more_lamps = refl

no_carts-GoodCarts : GoodCarts no_carts.carts
unfolding GoodCarts
no_carts-GoodCarts = tt

lamps_run : CartRun no_carts (filled 2)
lamps_run =
    then_add_item products variants (guest 8) (some 1) none 2 (guest_cart 2) done (omega arith)
      first_lamps

CartRun-GoodCarts_example : GoodCarts (filled 2).carts
CartRun-GoodCarts_example = CartRun-GoodCarts no_carts (filled 2) lamps_run no_carts-GoodCarts

add_item-Added_example :
    (u : SoldUnit) × (resolve_unit products variants (some 1) none 3 ≡ ok u)
    × Added products variants u 3 (get_or_create_cart (guest 8) (filled 2)).0.items (lamps 5 ∷ [])
    × (1 ≤ max max_cart_lines (length (get_or_create_cart (guest 8) (filled 2)).0.items))
add_item-Added_example =
    add_item-Added products variants (guest 8) (some 1) none 3 (filled 2) (guest_cart 5, filled 5)
      (omega arith) (CartRun-GoodCarts no_carts (filled 2) lamps_run no_carts-GoodCarts) more_lamps

abbrev shirt_line : CartItem
shirt_line = record {
  id = 4;
  product_id = 2;
  variant_id = some 7;
  quantity = 1;
  price_cents_snapshot = 4500;
}

quantity_of-merge_items_example :
    quantity_of 1 none (merge_items (shirt_line ∷ lamps 2 ∷ []) (lamps 3 ∷ []) 11).0 ≡ 5
quantity_of-merge_items_example =
    quantity_of-merge_items 1 none (shirt_line ∷ lamps 2 ∷ []) (lamps 3 ∷ []) 11
