-- ===== src/Returns/Restocked.antt =====
-- The stock that comes back with a return: what `receive` adds to each product and variant.
use fast_api_e_commerce.Prelude.{
  ℕ, ◌+◌, Bool, true, false, not, ◌&&◌, Option, none, some, List, [], ◌∷◌, ok, ◌≡◌, arith, ◌==◌,
  if◌then◌else◌, is_some, pos, Option-cases, Bool-cases, inl, inr, bind_ok, ap, ◌∙◌, raise_if,
}
use fast_api_e_commerce.Orders.Types.{Order, OrderItem}
use fast_api_e_commerce.Products.{
  Product, Variant, Table, Deltas, add_delta, adjust_stock_many, adjust_variant_stock_many,
}
use fast_api_e_commerce.Returns.{
  approved, ReturnItem, ReturnRequest, Store, receipt_invalid, wrong_state, same_return_status,
  lock_order, get_return,
}
use fast_api_e_commerce.Returns.Receipts.{
  Arrival, once_each, all_given, check_arrivals, with_arrivals, amount_in, recorded, restock_lines,
  line_of, or_integrity, stock_back, variant_back, restock, receive,
}
use fast_api_e_commerce.Returns.Given.{
  given, Gives, add_delta-given, adjust_stock_many-given, adjust_variant_stock_many-given,
}

-- the line was sold as that product, without a variant
abbrev pub sold_as : ℕ → OrderItem → Bool
sold_as id l = elim l.variant_id [ none ↦ l.product_id == id | some _ ↦ false ]

abbrev pub sold_as_variant : ℕ → OrderItem → Bool
sold_as_variant id l = elim l.variant_id [ none ↦ false | some v ↦ v == id ]

-- the units of the items whose line passes a test
abbrev pub units_of : (OrderItem → Bool) → List OrderItem → List ReturnItem → ℕ
units_of test lines [] = 0
units_of test lines (i ∷ is) =
    elim (line_of i.order_item_id lines) [ none ↦ 0 | some l ↦ if test l then amount_in i else 0 ]
    + units_of test lines is

stock_back-given :
    (is : List ReturnItem) (t : Table Product) (lines : List OrderItem) (acc : Deltas) (id : ℕ)
    (p : Product)
    → t id ≡ some p
    → Gives acc
    → Gives (stock_back t lines is acc)
      × (given id (stock_back t lines is acc) ≡ given id acc + units_of (sold_as id) lines is)
unfolding stock_back
stock_back-given [] t lines acc id p h g = (g, ground arith)
stock_back-given (i ∷ is) t lines acc id p h g =
    elim (Option-cases (line_of i.order_item_id lines)) [
      | inl n ↦ ground (arith, stock_back-given is t lines acc id p h g)
      | inr (l, n) ↦
          let a = add_delta-given acc id l.product_id (amount_in i) g in
          elim (Bool-cases (not (is_some l.variant_id) && is_some (t l.product_id))) [
            | inr m ↦ ground (arith, stock_back-given is t lines acc id p h g)
            | inl m ↦ ground (
              arith,
              stock_back-given is t lines (add_delta l.product_id (pos (amount_in i)) acc) id p h
                  a.0,
            )
          ]
    ]

variant_back-given :
    (is : List ReturnItem) (t : Table Variant) (lines : List OrderItem) (acc : Deltas) (id : ℕ)
    (p : Variant)
    → t id ≡ some p
    → Gives acc
    → Gives (variant_back t lines is acc)
      × (given id (variant_back t lines is acc)
          ≡ given id acc + units_of (sold_as_variant id) lines is)
unfolding variant_back
variant_back-given [] t lines acc id p h g = (g, ground arith)
variant_back-given (i ∷ is) t lines acc id p h g =
    elim (Option-cases (line_of i.order_item_id lines)) [
      | inl n ↦ ground (arith, variant_back-given is t lines acc id p h g)
      | inr (l, n) ↦ elim (Option-cases l.variant_id) [
        | inl m ↦ ground (arith, variant_back-given is t lines acc id p h g)
        | inr (v, m) ↦
            let a = add_delta-given acc id v (amount_in i) g in
            elim (Bool-cases (is_some (t v))) [
              | inr z ↦ ground (arith, variant_back-given is t lines acc id p h g)
              | inl z ↦ ground (
                arith,
                variant_back-given is t lines (add_delta v (pos (amount_in i)) acc) id p h a.0,
              )
            ]
      ]
    ]

or_integrity_ok : {A : Type 0} (m : Option A) (a : A) → or_integrity m ≡ ok a → m ≡ some a
or_integrity_ok none a e = absurd (ground arith)
or_integrity_ok (some b) a e = ground arith

-- every product and variant has the units back that were sold as it
pub record StockBack (units : (OrderItem → Bool) → ℕ) (s s' : Store) : Type 0 where
  pub products :
      (id : ℕ) (p : Product)
      → s.db.products id ≡ some p
      → s'.db.products id ≡ some (record p { stock = p.stock + units (sold_as id) })
  pub variants :
      (id : ℕ) (v : Variant)
      → s.db.variants id ≡ some v
      → s'.db.variants id ≡ some (record v { stock = v.stock + units (sold_as_variant id) })

restock-StockBack :
    (o : Order) (id : ℕ) (items items' : List ReturnItem) (s s' : Store)
    → restock o id items s ≡ ok (items', s')
    → StockBack (λ test. units_of test o.items (recorded id s.restock_events items)) s s'
unfolding restock
restock-StockBack o id items items' s s' e =
    let fresh : List ReturnItem = recorded id s.restock_events items in
    let (lines, l, e1) = bind_ok (restock_lines fresh o.items) _ e in
    let (products, p, e2) =
      bind_ok
        (or_integrity (adjust_stock_many s.db.products (stock_back s.db.products o.items fresh [])))
        _ e1 in
    let (variants, v, e3) =
      bind_ok
        (or_integrity
          (adjust_variant_stock_many s.db.variants (variant_back s.db.variants o.items fresh [])))
        _ e2 in
    record {
      products = λ i x h.
          let g = stock_back-given fresh s.db.products o.items [] i x h tt in
          let r =
            adjust_stock_many-given (stock_back s.db.products o.items fresh []) s.db.products
              products i x g.0
              (or_integrity_ok
                (adjust_stock_many s.db.products (stock_back s.db.products o.items fresh []))
                products p)
              h in
          ground arith;
      variants = λ i x h.
          let g = variant_back-given fresh s.db.variants o.items [] i x h tt in
          let r =
            adjust_variant_stock_many-given (variant_back s.db.variants o.items fresh [])
              s.db.variants variants i x g.0
              (or_integrity_ok
                (adjust_variant_stock_many s.db.variants
                  (variant_back s.db.variants o.items fresh []))
                variants v)
              h in
          ground arith;
    }

-- what a return that was received went through
pub receive-recorded :
    (id : ℕ) (arrivals : List Arrival) (s s' : Store)
    → receive id arrivals s ≡ ok s'
    → (r : ReturnRequest) × (get_return id s ≡ ok r)
      × (r.status ≡ approved)
      × (all_given arrivals r.items ≡ true)
      × (o : Order) × (s.db.orders r.order_id ≡ some o)
      × StockBack
          (λ test.
            units_of test o.items (recorded r.id s.restock_events (with_arrivals arrivals r.items)))
          s
          s'
unfolding receive
receive-recorded id arrivals s s' e =
    let (r, g, e1) = bind_ok (get_return id s) _ e in
    let (_, a, e2) =
      bind_ok (raise_if (not (same_return_status r.status approved)) wrong_state) _ e1 in
    let (_, _, e3) =
      bind_ok (raise_if (not (once_each arrivals && all_given arrivals r.items)) receipt_invalid) _
        e2 in
    let (_, _, e4) = bind_ok (check_arrivals r.items arrivals) _ e3 in
    let (o, l, e5) = bind_ok (lock_order r.order_id s) _ e4 in
    let ((items, s1), d, e6) = bind_ok (restock o r.id (with_arrivals arrivals r.items) s) _ e5 in
    let q = restock-StockBack o r.id (with_arrivals arrivals r.items) items s s1 d in
    let f : s'.db ≡ s1.db = ground arith in
    (
      r,
      g,
      ground arith,
      ground arith,
      o,
      ground arith,
      record {
        products = λ i x h. ap (λ y. y.products i) f ∙ q.products i x h;
        variants = λ i x h. ap (λ y. y.variants i) f ∙ q.variants i x h;
      },
    )
