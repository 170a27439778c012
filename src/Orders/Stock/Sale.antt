-- ===== src/Orders/Stock/Sale.antt =====
-- The stock changes for what the loop over the lines sells.
use fast_api_e_commerce.Prelude.{
  ℕ, ◌≤◌, ◌<◌, some, List, [], ok, ◌≡◌, inl, inr, arith, Option-cases,
}
use fast_api_e_commerce.Products.{
  Product, Variant, Table, adjust_stock_many, adjust_variant_stock_many,
}
use fast_api_e_commerce.Cart.{CartItem}
use fast_api_e_commerce.Orders.Shop.{Shop}
use fast_api_e_commerce.Orders.Sell.{
  StockUnit, product_unit, variant_unit, Sold, sell, stock_deltas, variant_deltas,
}
use fast_api_e_commerce.Orders.Stock.{unit_sold, unit_stock, sell-covered, sell-exists}
use fast_api_e_commerce.Orders.Stock.Deltas.{taken, Takes, stock_deltas-taken, variant_deltas-taken}
use fast_api_e_commerce.Orders.Stock.OfProducts.{
  less_product, CoversProducts, TakenFromProducts, adjust_stock_many-total,
}
use fast_api_e_commerce.Orders.Stock.OfVariants.{
  less_variant, CoversVariants, TakenFromVariants, adjust_variant_stock_many-total,
}

module _ (shop : Shop) (items : List CartItem) (sold : List Sold)
    (h : sell shop.products shop.variants [] items ≡ ok sold) where
  covered :
      (u : StockUnit)
      → 0 < unit_sold u sold
      → (s : ℕ) × (unit_stock shop.products shop.variants u ≡ some s) × (unit_sold u sold ≤ s)
  covered u pos_u =
      let (s, e) = sell-exists shop.products shop.variants u items [] sold h pos_u in
      (s, e, sell-covered shop.products shop.variants u s e items [] sold h)

  products_taken :
      (id : ℕ)
      → Takes (stock_deltas sold [])
        × (taken id (stock_deltas sold []) ≡ unit_sold (product_unit id) sold)
  unfolding Takes
  products_taken id = let (t, e) = stock_deltas-taken id sold [] tt in (t, omega (arith, e))

  variants_taken :
      (id : ℕ)
      → Takes (variant_deltas sold [])
        × (taken id (variant_deltas sold []) ≡ unit_sold (variant_unit id) sold)
  unfolding Takes
  variants_taken id = let (t, e) = variant_deltas-taken id sold [] tt in (t, omega (arith, e))

  product_row :
      (id s : ℕ)
      → unit_stock shop.products shop.variants (product_unit id) ≡ some s
      → (p : Product) × (shop.products id ≡ some p) × (p.stock ≡ s)
  product_row id s e = elim (Option-cases (shop.products id)) [
    | inl n ↦ absurd (ground arith)
    | inr (p, ep) ↦ (p, ep, ground arith)
  ]

  variant_row :
      (id s : ℕ)
      → unit_stock shop.products shop.variants (variant_unit id) ≡ some s
      → (v : Variant) × (shop.variants id ≡ some v) × (v.stock ≡ s)
  variant_row id s e = elim (Option-cases (shop.variants id)) [
    | inl n ↦ absurd (ground arith)
    | inr (p, ep) ↦ (p, ep, ground arith)
  ]

  products_covered : CoversProducts shop.products (stock_deltas sold [])
  unfolding CoversProducts
  products_covered id pos_id =
      let (_, e) = products_taken id in
      let (s, es, le) = covered (product_unit id) (rw e at pos_id) in
      let (p, ep, same) = product_row id s es in (p, ep, omega (arith, e, le, same))

  variants_covered : CoversVariants shop.variants (variant_deltas sold [])
  unfolding CoversVariants
  variants_covered id pos_id =
      let (_, e) = variants_taken id in
      let (s, es, le) = covered (variant_unit id) (rw e at pos_id) in
      let (v, ev, same) = variant_row id s es in (v, ev, omega (arith, e, le, same))

  -- the stock of every unit of which nothing more is sold than there is, after the sale
  unfoldable pub Moved : Table Product → Table Variant → Type 0
  Moved products variants =
      ((id : ℕ) (p : Product)
        → shop.products id ≡ some p
        → products id ≡ some (less_product p (unit_sold (product_unit id) sold)))
      × ((id : ℕ) (v : Variant)
          → shop.variants id ≡ some v
          → variants id ≡ some (less_variant v (unit_sold (variant_unit id) sold)))
      × ((u : StockUnit)
          → 0 < unit_sold u sold
          → (s : ℕ) × (unit_stock shop.products shop.variants u ≡ some s) × (unit_sold u sold ≤ s))

  -- both tables can be changed
  pub adjust_both :
      (products : Table Product) × (variants : Table Variant) × (adjust_stock_many shop.products
          (stock_deltas sold [])
        ≡ some products)
      × (adjust_variant_stock_many shop.variants (variant_deltas sold []) ≡ some variants)
      × Moved products variants
  unfolding Moved TakenFromProducts TakenFromVariants
  adjust_both =
      let (products, ep, fp) =
        adjust_stock_many-total (stock_deltas sold []) shop.products (products_taken 0).0
          products_covered in
      let (variants, ev, fv) =
        adjust_variant_stock_many-total (variant_deltas sold []) shop.variants (variants_taken 0).0
          variants_covered in
      (
        products,
        variants,
        ep,
        ev,
        (
          λ id p e. rw (products_taken id).1 at (fp id p e),
          λ id v e. rw (variants_taken id).1 at (fv id v e),
          covered,
        ),
      )
