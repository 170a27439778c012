-- ===== src/Orders/Stock/Moved.antt =====
-- The stock before and after a checkout.
use fast_api_e_commerce.Prelude.{
  true, ℕ, suc, ◌+◌, ◌-◌, ◌*◌, ◌≤◌, ◌<◌, Option, none, some, List, [], ◌∷◌, ok, ◌≡◌, inl, inr, refl,
  sym, ◌∙◌, arith, length, if◌then◌else◌, Result-cases, bind_ok, length-map, length-replicate,
}
use fast_api_e_commerce.Orders.Types.{Order, OrderItem, Text}
use fast_api_e_commerce.Tax.Allocate.Shares.{length-allocate}
use fast_api_e_commerce.Money.{Currency}
use fast_api_e_commerce.Products.{
  Product, Variant, Table, adjust_stock_many, adjust_variant_stock_many,
}
use fast_api_e_commerce.Cart.{Cart, CartItem, Carts}
use fast_api_e_commerce.Cart.View.{cart_digest}
use fast_api_e_commerce.Coupons.{Coupon, Discount, share_discount, evaluate}
use fast_api_e_commerce.Orders.Shop.{Address, Config, Shop, Request, Env}
use fast_api_e_commerce.Orders.Sell.{
  StockUnit, product_unit, variant_unit, same_unit, Sold, sell, stock_deltas, variant_deltas,
  values_of, subtotal_of, sorted_items,
}
use fast_api_e_commerce.Orders.Price.{
  Reduction, reduce_by, reduce_code, reduce, calculate_shipping, calculate_order_tax, user_of,
  email_of, given_code, find_coupon, lift_coupon,
}
use fast_api_e_commerce.Orders.Checkout.{
  order_items, new_order, after_order, initialized_currency, order_fits, commit_order, sell_cart,
  place, checkout_new,
}
use fast_api_e_commerce.Orders.Placed.{New, Placed, checkout_new-inv, sell_cart-inv}
use fast_api_e_commerce.Orders.Stock.{unit_sold, unit_stock}
use fast_api_e_commerce.Orders.Stock.OfProducts.{less_product}
use fast_api_e_commerce.Orders.Stock.OfVariants.{less_variant}
use fast_api_e_commerce.Orders.Stock.Sale.{Moved, adjust_both}

abbrev pub unit_of_line : OrderItem → StockUnit
unit_of_line i = elim i.variant_id [ none ↦ product_unit i.product_id | some v ↦ variant_unit v ]

-- how many of a unit the lines of an order hold
abbrev pub ordered : StockUnit → List OrderItem → ℕ
ordered u [] = 0
ordered u (i ∷ is) =
    let rest = ordered u is in if same_unit (unit_of_line i) u then i.quantity + rest else rest

ordered-order_items :
    (u : StockUnit) (next : ℕ) (sold : List Sold) (shares : List ℕ)
    → length shares ≡ length sold
    → ordered u (order_items next sold shares) ≡ unit_sold u sold
unfolding order_items
ordered-order_items u next [] [] h = refl
ordered-order_items u next [] (x ∷ xs) h = absurd (omega arith)
ordered-order_items u next (s ∷ ss) [] h = absurd (omega arith)
ordered-order_items u next (s ∷ ss) (x ∷ xs) h =
    let rest = ordered-order_items u (suc next) ss xs (omega arith) in rw rest refl

length-share_discount :
    (n : ℕ) (sold : List Sold) → length (share_discount n (values_of sold)) ≡ length sold
unfolding share_discount
length-share_discount n sold =
    length-allocate n (values_of sold)
    ∙ length-map (λ (s : Sold). s.price_cents * s.item.quantity) sold

length-reduce_by :
    (config : Config) (sold : List Sold) (o : Option Coupon) (d : Discount) (q : Reduction)
    → reduce_by config sold o d ≡ ok q
    → length q.shares ≡ length sold
unfolding reduce_by
length-reduce_by config sold o d q h =
    elim (Result-cases (calculate_shipping config (subtotal_of sold - d.goods_cents))) [
      | inl (x, k) ↦ ground (arith, length-replicate {A = ℕ} (length sold) 0)
      | inr (n, k) ↦ ground (
        arith,
        length-replicate {A = ℕ} (length sold) 0,
        length-share_discount d.goods_cents sold,
      )
    ]

length-reduce_code :
    (env : Env) (r : Request) (shop : Shop) (sold : List Sold) (shipping : ℕ) (code : Option Text)
    (q : Reduction)
    → reduce_code env r shop sold shipping code ≡ ok q
    → length q.shares ≡ length sold
unfolding reduce_code
length-reduce_code env r shop sold shipping none q h =
    ground (arith, length-replicate {A = ℕ} (length sold) 0)
length-reduce_code env r shop sold shipping (some code) q h =
    let (d, ed, h1) =
      bind_ok
        (lift_coupon (
          evaluate shop.orders (find_coupon shop code) (subtotal_of sold) shipping (user_of r.owner)
            (email_of r) env.now))
        _ h in
    length-reduce_by env.config sold (find_coupon shop code) d q h1

-- the stock after an order: every unit has what the order holds of it less, and had as much
unfoldable pub StockMoved : Shop → List OrderItem → Shop → Type 0
StockMoved shop items after =
    ((id : ℕ) (p : Product)
      → shop.products id ≡ some p
      → after.products id ≡ some (less_product p (ordered (product_unit id) items)))
    × ((id : ℕ) (v : Variant)
        → shop.variants id ≡ some v
        → after.variants id ≡ some (less_variant v (ordered (variant_unit id) items)))
    × ((u : StockUnit)
        → 0 < ordered u items
        → (s : ℕ) × (unit_stock shop.products shop.variants u ≡ some s) × (ordered u items ≤ s))

-- the same, of an order made of what is sold
Moved-ordered :
    (env : Env) (r : Request) (shop : Shop) (digest : ℕ) (currency : Currency) (cart : Cart)
    (carts : Carts) (items : List CartItem) (sold : List Sold)
    (es : sell shop.products shop.variants [] items ≡ ok sold) (q : Reduction) (tax : ℕ)
    (products : Table Product) (variants : Table Variant)
    → length q.shares ≡ length sold
    → Moved shop items sold es products variants
    → let o = new_order env r shop digest currency sold q tax in
      StockMoved shop o.items
        (after_order (initialized_currency env.config shop) shop cart carts products variants o)
unfolding StockMoved Moved new_order after_order
Moved-ordered env r shop digest currency cart carts items sold es q tax products variants len
      (f, g, h) =
    let same = λ (u : StockUnit). ordered-order_items u shop.next_order_item sold q.shares len in
    (
      λ id p e. rw (same (product_unit id)) (f id p e),
      λ id v e. rw (same (variant_unit id)) (g id v e),
      λ u pos_u. rw (same u) (h u (rw (same u) at pos_u)),
    )

some_injective : {A : Type 0} (a b : A) → some a ≡ some b → a ≡ b
some_injective a b e = ground arith

Placed-moved :
    (env : Env) (r : Request) (shop : Shop) (currency : Currency) (columns : Option Address)
    (cart : Cart) (carts : Carts) (p : Order × Shop)
    → Placed env r shop currency columns cart carts p
    → StockMoved shop p.0.items p.1
unfolding Placed reduce
Placed-moved env r shop currency columns cart carts p
      (sold, shipping, q, tax, products, variants, es, ec, e2, e3, e4, e5, e6, e7) =
    let (products', variants', e5', e6', moved) =
      adjust_both shop (sorted_items cart.items) sold es in
    let len = length-reduce_code env r shop sold shipping (given_code r.coupon_code) q e3 in
    let same_p = some_injective products' products (sym e5' ∙ e5) in
    let same_v = some_injective variants' variants (sym e6' ∙ e6) in
    rw e7 (
      Moved-ordered env r shop _ currency cart carts (sorted_items cart.items) sold es q tax
        products variants len (rw (same_p, same_v) at moved))

-- If checkout makes an order under a new key, then every product and variant has exactly what the order
-- holds of it less in stock, else being as before, and of no unit does the order hold more than there
-- was.
pub checkout_new-moved :
    (env : Env) (r : Request) (shop : Shop) (p : Order × Shop)
    → checkout_new env r shop ≡ ok p
    → StockMoved shop p.0.items p.1
unfolding New
checkout_new-moved env r shop p h =
    let ((currency, columns, _, _, _, placed), _) = checkout_new-inv env r shop p h in
    Placed-moved env r shop currency columns _ _ p placed

place-commit_order :
    (env : Env) (r : Request) (shop : Shop) (currency : Currency) (columns : Option Address)
    (cart : Cart) (carts : Carts) (sold : List Sold) (shipping : ℕ) (q : Reduction) (tax : ℕ)
    → sell_cart env shop (sorted_items cart.items) ≡ ok sold
    → calculate_shipping env.config (subtotal_of sold) ≡ ok shipping
    → reduce env r shop sold shipping ≡ ok q
    → calculate_order_tax env shop sold q columns ≡ ok tax
    → place env r shop currency columns cart carts
      ≡ commit_order env r shop cart carts sold
          (new_order env r shop (cart_digest env.sha256 cart.items) currency sold q tax)
unfolding place
place-commit_order env r shop currency columns cart carts sold shipping q tax e1 e2 e3 e4 =
    rw (e1, e2, e3, e4, place) refl

commit_order-ok :
    (env : Env) (r : Request) (shop : Shop) (cart : Cart) (carts : Carts) (sold : List Sold)
    (o : Order) (products : Table Product) (variants : Table Variant)
    → adjust_stock_many shop.products (stock_deltas sold []) ≡ some products
    → adjust_variant_stock_many shop.variants (variant_deltas sold []) ≡ some variants
    → order_fits o ≡ true
    → commit_order env r shop cart carts sold o
      ≡ ok (
        o,
        after_order (initialized_currency env.config shop) shop cart carts products variants o,
      )
unfolding commit_order
commit_order-ok env r shop cart carts sold o products variants e5 e6 e7 =
    rw (e5, e6, e7, commit_order) refl

-- If the lines sell, their shipping, discount and tax are worked out, and the amounts of the order made
-- of them fit their columns, then `place` returns an order: the changes of the stock are never refused.
pub place-total :
    (env : Env) (r : Request) (shop : Shop) (currency : Currency) (columns : Option Address)
    (cart : Cart) (carts : Carts) (sold : List Sold) (shipping : ℕ) (q : Reduction) (tax : ℕ)
    → sell_cart env shop (sorted_items cart.items) ≡ ok sold
    → calculate_shipping env.config (subtotal_of sold) ≡ ok shipping
    → reduce env r shop sold shipping ≡ ok q
    → calculate_order_tax env shop sold q columns ≡ ok tax
    → order_fits (new_order env r shop (cart_digest env.sha256 cart.items) currency sold q tax)
      ≡ true
    → (p : Order × Shop) × (place env r shop currency columns cart carts ≡ ok p)
place-total env r shop currency columns cart carts sold shipping q tax e1 e2 e3 e4 e5' =
    let (products, variants, e5, e6, _) =
      adjust_both shop (sorted_items cart.items) sold (sell_cart-inv env shop _ sold e1).0 in
    let o = new_order env r shop (cart_digest env.sha256 cart.items) currency sold q tax in
    (
      (o, after_order (initialized_currency env.config shop) shop cart carts products variants o),
      place-commit_order env r shop currency columns cart carts sold shipping q tax e1 e2 e3 e4
          ∙ commit_order-ok env r shop cart carts sold o products variants e5 e6 e5',
    )
