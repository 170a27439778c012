-- ===== src/Orders/Placed.antt =====
-- What a checkout that returned went through.
use fast_api_e_commerce.Prelude.{
  ℕ, Bool, true, false, not, ◌&&◌, Option, some, List, [], ◌∷◌, Result, ok, ◌>>◌, raise_if, ◌≡◌,
  inl, inr, refl, arith, Option-cases, bind_ok,
}
use fast_api_e_commerce.Orders.Types.{Order}
use fast_api_e_commerce.Money.{Currency}
use fast_api_e_commerce.Products.{
  Product, Variant, Table, adjust_stock_many, adjust_variant_stock_many,
}
use fast_api_e_commerce.Cart.{Cart, CartItem, Carts, get_or_create_cart}
use fast_api_e_commerce.Cart.View.{cart_digest}
use fast_api_e_commerce.Orders.Shop.{
  Address, Shop, Request, Env, checkout_not_configured, delivery_not_available, empty_cart,
  product_tax_unassigned, price_changed,
}
use fast_api_e_commerce.Orders.Sell.{
  Sold, sorted_items, sell, stock_deltas, variant_deltas, subtotal_of, price_changes,
}
use fast_api_e_commerce.Orders.Price.{
  pricing_configured, calculate_shipping, Reduction, reduce, calculate_order_tax,
  resolve_shipping_snapshot,
}
use fast_api_e_commerce.Orders.Checkout.{
  resolve_currency, untaxed, sell_cart, not_empty, new_order, after_order, initialized_currency,
  order_fits, commit_order, place, checkout_new,
}

pub raise_ok :
    {E B : Type 0} (b : Bool) (x : E) (k : Result E B) (r : B)
    → (raise_if b x >> k) ≡ ok r
    → (b ≡ false) × (k ≡ ok r)
raise_ok true x k r h = absurd (ground arith)
raise_ok false x k r h = (refl, h)

commit_order-inv :
    (env : Env) (r : Request) (shop : Shop) (cart : Cart) (carts : Carts) (sold : List Sold)
    (o : Order) (p : Order × Shop)
    → commit_order env r shop cart carts sold o ≡ ok p
    → (products : Table Product) × (variants : Table Variant) × (adjust_stock_many shop.products
          (stock_deltas sold [])
        ≡ some products)
      × (adjust_variant_stock_many shop.variants (variant_deltas sold []) ≡ some variants)
      × (order_fits o ≡ true)
      × (p ≡ (
        o,
        after_order (initialized_currency env.config shop) shop cart carts products variants o,
      ))
unfolding commit_order
commit_order-inv env r shop cart carts sold o p h =
    elim (Option-cases (adjust_stock_many shop.products (stock_deltas sold []))) [
      | inl e ↦ absurd (ground arith)
      | inr (products, e) ↦
          elim (Option-cases (adjust_variant_stock_many shop.variants (variant_deltas sold []))) [
            | inl k ↦ absurd (ground arith)
            | inr (variants, k) ↦ (products, variants, e, k, ground arith, ground arith)
          ]
    ]

-- the steps of `place`
unfoldable pub Placed :
    Env → Request → Shop → Currency → Option Address → Cart → Carts → Order × Shop → Type 0
Placed env r shop currency columns cart carts p =
    (sold : List Sold) × (shipping : ℕ) × (reduction : Reduction) × (tax : ℕ) × (products : Table
      Product)
    × (variants : Table Variant) × (sell shop.products shop.variants [] (sorted_items cart.items)
        ≡ ok sold)
    × (price_changes sold ≡ [])
    × (calculate_shipping env.config (subtotal_of sold) ≡ ok shipping)
    × (reduce env r shop sold shipping ≡ ok reduction)
    × (calculate_order_tax env shop sold reduction columns ≡ ok tax)
    × (adjust_stock_many shop.products (stock_deltas sold []) ≡ some products)
    × (adjust_variant_stock_many shop.variants (variant_deltas sold []) ≡ some variants)
    × (p ≡ (
        let o =
          new_order env r shop (cart_digest env.sha256 cart.items) currency sold reduction tax in
        (
          o,
          after_order (initialized_currency env.config shop) shop cart carts products variants o,
        )))

pub sell_cart-inv :
    (env : Env) (shop : Shop) (items : List CartItem) (sold : List Sold)
    → sell_cart env shop items ≡ ok sold
    → (sell shop.products shop.variants [] items ≡ ok sold) × (price_changes sold ≡ [])
unfolding sell_cart
sell_cart-inv env shop items sold h =
    let missing = untaxed shop items in
    let (_, h1) =
      raise_ok (env.config.require_tax_classification && not_empty missing)
        (product_tax_unassigned missing) _ sold h in
    let (s, e, h2) = bind_ok (sell shop.products shop.variants [] items) _ h1 in
    let (n, h3) =
      raise_ok (not_empty (price_changes s)) (price_changed (price_changes s) (subtotal_of s)) _
        sold h2 in
    let es : s ≡ sold = ground arith in (rw es at e, rw es at (not_empty-nil (price_changes s) n))
  where
    not_empty-nil : {A : Type 0} (xs : List A) → not_empty xs ≡ false → xs ≡ []
    not_empty-nil [] e = refl
    not_empty-nil (x ∷ xs) e = absurd (ground arith)

place-inv :
    (env : Env) (r : Request) (shop : Shop) (currency : Currency) (columns : Option Address)
    (cart : Cart) (carts : Carts) (p : Order × Shop)
    → place env r shop currency columns cart carts ≡ ok p
    → Placed env r shop currency columns cart carts p
unfolding place Placed
place-inv env r shop currency columns cart carts p h =
    let (sold, e1, h1) = bind_ok (sell_cart env shop (sorted_items cart.items)) _ h in
    let (shipping, e2, h2) = bind_ok (calculate_shipping env.config (subtotal_of sold)) _ h1 in
    let (reduction, e3, h3) = bind_ok (reduce env r shop sold shipping) _ h2 in
    let (tax, e4, h4) = bind_ok (calculate_order_tax env shop sold reduction columns) _ h3 in
    let (es, ec) = sell_cart-inv env shop _ sold e1 in
    let (products, variants, e5, e6, _, e7) = commit_order-inv env r shop cart carts sold _ p h4 in
    (sold, shipping, reduction, tax, products, variants, es, ec, e2, e3, e4, e5, e6, e7)

-- the steps of a checkout under a new key
unfoldable pub New : Env → Request → Shop → Order × Shop → Type 0
New env r shop p =
    (currency : Currency) × (columns : Option Address) × (resolve_currency env.config shop
      ≡ ok currency)
    × (resolve_shipping_snapshot shop r.owner r.address_id r.shipping_address ≡ ok columns)
    × (env.deliverable columns ≡ true)
    × Placed env r shop currency columns (get_or_create_cart r.owner shop.carts).0
        (get_or_create_cart r.owner shop.carts).1 p

pub checkout_new-inv :
    (env : Env) (r : Request) (shop : Shop) (p : Order × Shop)
    → checkout_new env r shop ≡ ok p
    → New env r shop p × (not_empty (get_or_create_cart r.owner shop.carts).0.items ≡ true)
unfolding checkout_new New
checkout_new-inv env r shop p h =
    let (_, h1) = raise_ok (not (pricing_configured env.config)) checkout_not_configured _ p h in
    let (currency, e1, h2) = bind_ok (resolve_currency env.config shop) _ h1 in
    let (columns, e2, h3) =
      bind_ok (resolve_shipping_snapshot shop r.owner r.address_id r.shipping_address) _ h2 in
    let (d, h4) = raise_ok (not (env.deliverable columns)) delivery_not_available _ p h3 in
    let (cart, carts) = get_or_create_cart r.owner shop.carts in
    let (ne, h5) = raise_ok (not (not_empty cart.items)) empty_cart _ p h4 in
    (
      (
        currency,
        columns,
        e1,
        e2,
        ground arith,
        place-inv env r shop currency columns cart carts p h5,
      ),
      ground arith,
    )
