-- ===== src/Cart/Stocked.antt =====
-- Units for sale, and what adding one of them does to the lines.
use fast_api_e_commerce.Prelude.{
  max, ℕ, suc, ◌+◌, ◌≤◌, ◌<◌, true, false, Option, none, some, List, [], ◌∷◌, ◌++◌, ok, ◌≡◌, ◌⊎◌,
  inl, inr, refl, arith, length, if◌then◌else◌, Option-cases, any, find, Result-cases, Bool-cases,
}
use fast_api_e_commerce.Products.{Product, Variant, Table, effective_price}
use fast_api_e_commerce.Cart.{
  CartItem, SoldUnit, is_line, update_quantity, add_line, new_line, resolve_product,
  resolve_variant, resolve_unit, max_cart_lines,
}
use fast_api_e_commerce.Cart.Lines.{
  quantity_of, GoodLines, append-GoodLines, update_quantity-GoodLines, quantity_of-append,
}

-- the unit is for sale, at this price, and its stock covers the quantity
pub Sellable : Table Product → Table Variant → SoldUnit → ℕ → Type 0
Sellable products variants u n =
    ((p : Product) × (products u.product_id ≡ some p)
      × (p.is_active ≡ true)
      × (u.variant_id ≡ none)
      × (p.option_count ≡ 0)
      × (n ≤ p.stock)
      × (u.price_cents ≡ p.price_cents))
    ⊎ ((id : ℕ) × (w : Variant) × (p : Product) × (u.variant_id ≡ some id)
        × (variants id ≡ some w)
        × (w.product_id ≡ u.product_id)
        × (products u.product_id ≡ some p)
        × (p.is_active ≡ true)
        × (w.is_active ≡ true)
        × (n ≤ w.stock)
        × (u.price_cents ≡ effective_price w p.price_cents))

resolve_product-Sellable :
    (products : Table Product) (variants : Table Variant) (id : ℕ) (n : ℕ) (u : SoldUnit)
    → resolve_product id (products id) n ≡ ok u
    → Sellable products variants u n
unfolding resolve_product Sellable
resolve_product-Sellable products variants id n u h = elim (Option-cases (products id)) [
  | inl e ↦ absurd (ground arith)
  | inr (p, e) ↦
      inl (p, ground arith, ground arith, ground arith, ground arith, ground arith, ground arith)
]

resolve_variant-Sellable :
    (products : Table Product) (variants : Table Variant) (id : ℕ) (v : Variant) (o : Option ℕ)
    (n : ℕ) (u : SoldUnit)
    → variants id ≡ some v
    → resolve_variant products id v o n ≡ ok u
    → Sellable products variants u n
unfolding resolve_variant Sellable
resolve_variant-Sellable products variants id v o n u ev h =
    elim (Option-cases (products v.product_id)) [
      | inl e ↦ absurd (ground arith)
      | inr (p, e) ↦ inr (
        id,
        v,
        p,
        ground arith,
        ev,
        ground arith,
        ground arith,
        ground arith,
        ground arith,
        ground arith,
        ground arith,
      )
    ]

-- A unit that `resolve_unit` returns is for sale at its current price, and its stock covers the quantity.
pub resolve_unit-Sellable :
    (products : Table Product) (variants : Table Variant) (product_id variant_id : Option ℕ) (n : ℕ)
    (u : SoldUnit)
    → resolve_unit products variants product_id variant_id n ≡ ok u
    → Sellable products variants u n
unfolding resolve_unit
resolve_unit-Sellable products variants o (some id) n u h = elim (Option-cases (variants id)) [
  | inl e ↦ absurd (ground arith)
  | inr (v, e) ↦ resolve_variant-Sellable products variants id v o n u e (ground arith)
]
resolve_unit-Sellable products variants none none n u h = absurd (ground arith)
resolve_unit-Sellable products variants (some id) none n u h =
    resolve_product-Sellable products variants id n u h

find-any :
    (p : ℕ) (v : Option ℕ) (is : List CartItem)
    → find (is_line p v) is ≡ none
    → any (is_line p v) is ≡ false
find-any p v [] h = refl
find-any p v (i ∷ is) h = ground (arith, find-any p v is)

quantity_of-absent :
    (p : ℕ) (v : Option ℕ) (is : List CartItem)
    → any (is_line p v) is ≡ false
    → quantity_of p v is ≡ 0
quantity_of-absent p v [] h = refl
quantity_of-absent p v (i ∷ is) h = ground (arith, quantity_of-absent p v is)

length-update_quantity :
    (p : ℕ) (v : Option ℕ) (n : ℕ) (is : List CartItem)
    → length (update_quantity p v n is) ≡ length is
unfolding update_quantity
length-update_quantity p v n [] = refl
length-update_quantity p v n (i ∷ is) = ground (arith, length-update_quantity p v n is)

length-snoc : (is : List CartItem) (i : CartItem) → length (is ++ (i ∷ [])) ≡ suc (length is)
length-snoc [] i = refl
length-snoc (j ∷ is) i = ground (arith, length-snoc is i)

-- with the line found, its quantity set to q more is q more of its key, and as many of every other
quantity_of-update_quantity :
    (p q : ℕ) (v w : Option ℕ) (m : ℕ) (is : List CartItem) (e : CartItem)
    → find (is_line p v) is ≡ some e
    → quantity_of q w (update_quantity p v (e.quantity + m) is)
      ≡ quantity_of q w is + (if is_line q w e then m else 0)
unfolding update_quantity
quantity_of-update_quantity p q v w m [] e h = absurd (ground arith)
quantity_of-update_quantity p q v w m (i ∷ is) e h =
    ground (arith, quantity_of-update_quantity p q v w m is e)

quantity_of-find :
    (p : ℕ) (v : Option ℕ) (is : List CartItem) (e : CartItem)
    → GoodLines is
    → find (is_line p v) is ≡ some e
    → (quantity_of p v is ≡ e.quantity) × (is_line p v e ≡ true)
unfolding GoodLines
quantity_of-find p v [] e g h = absurd (ground arith)
quantity_of-find p v (i ∷ is) e (a, b, c) h = elim (Bool-cases (is_line p v i)) [
  | inl t ↦ let (ep, ev) = same_key_of i t in ground (arith, quantity_of-absent p v is)
  | inr t ↦ ground (arith, quantity_of-find p v is e c)
]
  where
    same_key_of : (i : CartItem) → is_line p v i ≡ true → (i.product_id ≡ p) × (i.variant_id ≡ v)
    same_key_of i t = ground arith

resolve_unit-more :
    (products : Table Product) (variants : Table Variant) (u r : SoldUnit) (m n : ℕ)
    → Sellable products variants u m
    → resolve_unit products variants (some u.product_id) u.variant_id n ≡ ok r
    → Sellable products variants u n
unfolding Sellable resolve_unit resolve_product resolve_variant
resolve_unit-more products variants u r m n (inl (p, ep, a, ev, o, s, c)) h =
    inl (p, ep, a, ev, o, ground arith, c)
resolve_unit-more products variants u r m n (inr (id, w, p, ev, ew, e, ep, a, b, s, c)) h =
    inr (id, w, p, ev, ew, e, ep, a, b, ground arith, c)

-- what adding n of a unit does to the lines
unfoldable pub Added :
    Table Product → Table Variant → SoldUnit → ℕ → List CartItem → List CartItem → Type 0
Added products variants u n items items' =
    GoodLines items'
    × Sellable products variants u (quantity_of u.product_id u.variant_id items')
    × ((p : ℕ) (v : Option ℕ)
        → quantity_of p v items' ≡ quantity_of p v items + quantity_of p v (new_line 0 u n ∷ []))

add_line-found :
    (products : Table Product) (variants : Table Variant) (u r : SoldUnit) (n : ℕ)
    (items : List CartItem) (e : CartItem)
    → GoodLines items
    → 0 < n
    → Sellable products variants u n
    → find (is_line u.product_id u.variant_id) items ≡ some e
    → resolve_unit products variants (some u.product_id) u.variant_id (e.quantity + n) ≡ ok r
    → Added products variants u n items
        (update_quantity u.product_id u.variant_id (e.quantity + n) items)
unfolding Added
add_line-found products variants u r n items e g pos_n s f h =
    let (qe, le) = quantity_of-find u.product_id u.variant_id items e g f in
    let upd = λ (p : ℕ) (v : Option ℕ).
      quantity_of-update_quantity u.product_id p u.variant_id v n items e f in
    let total : quantity_of u.product_id u.variant_id
          (update_quantity u.product_id u.variant_id (e.quantity + n) items)
        ≡ e.quantity + n =
      ground (arith, upd u.product_id u.variant_id) in
    (
      update_quantity-GoodLines u.product_id u.variant_id (e.quantity + n) items (omega arith) g,
      rw total (resolve_unit-more products variants u r n (e.quantity + n) s h),
      λ p v. ground (arith, upd p v),
    )

add_line-new :
    (products : Table Product) (variants : Table Variant) (u : SoldUnit) (n next : ℕ)
    (items : List CartItem)
    → GoodLines items
    → 0 < n
    → Sellable products variants u n
    → find (is_line u.product_id u.variant_id) items ≡ none
    → Added products variants u n items (items ++ (new_line next u n ∷ []))
unfolding Added
add_line-new products variants u n next items g pos_n s f =
    let absent = find-any u.product_id u.variant_id items f in
    let app = λ (p : ℕ) (v : Option ℕ). quantity_of-append p v items (new_line next u n) in
    let total : quantity_of u.product_id u.variant_id (items ++ (new_line next u n ∷ [])) ≡ n =
      ground (
        arith,
        app u.product_id u.variant_id,
        quantity_of-absent u.product_id u.variant_id items absent,
      ) in
    (
      append-GoodLines items (new_line next u n) g pos_n absent,
      rw total s,
      λ p v. ground (arith, app p v),
    )

pub add_line-Added :
    (products : Table Product) (variants : Table Variant) (u : SoldUnit) (n next : ℕ)
    (items : List CartItem) (result : List CartItem × ℕ)
    → GoodLines items
    → 0 < n
    → Sellable products variants u n
    → add_line products variants u n items next ≡ ok result
    → Added products variants u n items result.0
unfolding add_line
add_line-Added products variants u n next items result g pos_n s h =
    elim (Option-cases (find (is_line u.product_id u.variant_id) items)) [
      | inl f ↦
          let e : items ++ (new_line next u n ∷ []) ≡ result.0 = ground arith in
          rw e at (add_line-new products variants u n next items g pos_n s f)
      | inr (e, f) ↦
          elim (Result-cases
            (resolve_unit products variants (some u.product_id) u.variant_id (e.quantity + n))) [
              | inl (x, k) ↦ absurd (ground arith)
              | inr (r, k) ↦
                  let e' : update_quantity u.product_id u.variant_id (e.quantity + n) items
                      ≡ result.0 =
                    ground arith in
                  rw e' at (add_line-found products variants u r n items e g pos_n s f k)
            ]
    ]

pub length-add_line :
    (products : Table Product) (variants : Table Variant) (u : SoldUnit) (n next : ℕ)
    (items : List CartItem) (result : List CartItem × ℕ)
    → add_line products variants u n items next ≡ ok result
    → length result.0 ≤ max max_cart_lines (length items)
unfolding add_line
length-add_line products variants u n next items result h =
    elim (Option-cases (find (is_line u.product_id u.variant_id) items)) [
      | inl f ↦ ground (arith, length-snoc items (new_line next u n))
      | inr (e, f) ↦
          elim (Result-cases
            (resolve_unit products variants (some u.product_id) u.variant_id (e.quantity + n))) [
              | inl (x, k) ↦ absurd (ground arith)
              | inr (r, k) ↦
                  ground
                    (arith, length-update_quantity u.product_id u.variant_id (e.quantity + n) items)
            ]
    ]
