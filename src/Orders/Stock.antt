-- ===== src/Orders/Stock.antt =====
-- The stock that the lines of a cart take, unit by unit.
pub mod Deltas
pub mod OfProducts
pub mod OfVariants
pub mod Sale
pub mod Moved
use fast_api_e_commerce.Prelude.{
  ℕ, suc, ◌+◌, ◌-◌, ◌≤◌, ◌<◌, Bool, true, false, not, ◌&&◌, ◌||◌, Option, none, some, List, [], ◌∷◌,
  Result, ok, err, ◌>>=◌, ◌>>◌, raise_if, ◌≡◌, ◌⊎◌, inl, inr, refl, arith, ltb, if◌then◌else◌,
  Option-cases, Result-cases, Bool-cases, bind_ok, ◌==◌,
}
use fast_api_e_commerce.Products.{Product, Variant, Table, effective_price}
use fast_api_e_commerce.Cart.{CartItem, insufficient_stock}
use fast_api_e_commerce.Orders.Shop.{CheckoutError, cart_error}
use fast_api_e_commerce.Orders.Sell.{
  StockUnit, product_unit, variant_unit, same_unit, Offer, offer_product, offer_variant, offer,
  Sold, Remaining, remaining_of, sell,
}
use fast_api_e_commerce.Orders.Placed.{raise_ok}

-- the unit that a line takes its stock from
abbrev pub unit_of : CartItem → StockUnit
unit_of i = elim i.variant_id [ none ↦ product_unit i.product_id | some v ↦ variant_unit v ]

-- how many of a unit are sold
abbrev pub unit_sold : StockUnit → List Sold → ℕ
unit_sold u [] = 0
unit_sold u (s ∷ ss) =
    let rest = unit_sold u ss in
    if same_unit (unit_of s.item) u then s.item.quantity + rest else rest

abbrev pub unit_stock : Table Product → Table Variant → StockUnit → Option ℕ
unit_stock products variants (product_unit id) = elim (products id) [
  | none ↦ none
  | some p ↦ some p.stock
]
unit_stock products variants (variant_unit id) = elim (variants id) [
  | none ↦ none
  | some v ↦ some v.stock
]

pub offer_product-inv :
    (id : ℕ) (p : Option Product) (o : Offer)
    → offer_product id p ≡ ok o
    → (q : Product) × (p ≡ some q)
      × (o.unit ≡ product_unit id)
      × (o.stock ≡ q.stock)
      × (q.is_active ≡ true)
      × (o.price_cents ≡ q.price_cents)
unfolding offer_product
offer_product-inv id none o h = absurd (ground arith)
offer_product-inv id (some p) o h =
    (p, refl, ground arith, ground arith, ground arith, ground arith)

pub offer_variant-inv :
    (product_id id : ℕ) (p : Option Product) (v : Option Variant) (o : Offer)
    → offer_variant product_id id p v ≡ ok o
    → (q : Product) × (w : Variant) × (p ≡ some q)
      × (v ≡ some w)
      × (o.unit ≡ variant_unit id)
      × (o.stock ≡ w.stock)
      × (q.is_active ≡ true)
      × (w.is_active ≡ true)
      × (o.price_cents ≡ effective_price w q.price_cents)
unfolding offer_variant
offer_variant-inv product_id id none v o h = absurd (ground arith)
offer_variant-inv product_id id (some p) none o h = absurd (ground arith)
offer_variant-inv product_id id (some p) (some w) o h =
    (p, w, refl, refl, ground arith, ground arith, ground arith, ground arith, ground arith)

-- an offer is of the line's unit, with the stock of that unit
pub offer-unit :
    (products : Table Product) (variants : Table Variant) (i : CartItem) (o : Offer)
    → offer products variants i ≡ ok o
    → (o.unit ≡ unit_of i) × (unit_stock products variants (unit_of i) ≡ some o.stock)
unfolding offer
offer-unit products variants i o h = elim (Option-cases i.variant_id) [
  | inl e ↦
      let (q, ep, eu, es, _, _) =
        offer_product-inv i.product_id (products i.product_id) o (ground arith) in
      (ground arith, ground arith)
  | inr (v, e) ↦
      let (q, w, ep, ev, eu, es, _, _, _) =
        offer_variant-inv i.product_id v (products i.product_id) (variants v) o (ground arith) in
      (ground arith, ground arith)
]

pub same_unit_iff : (u v : StockUnit) → same_unit u v ≡ true → u ≡ v
same_unit_iff (product_unit a) (product_unit b) h = ground arith
same_unit_iff (product_unit a) (variant_unit b) h = absurd (ground arith)
same_unit_iff (variant_unit a) (product_unit b) h = absurd (ground arith)
same_unit_iff (variant_unit a) (variant_unit b) h = ground arith

-- one line of the loop
pub sell-cons :
    (products : Table Product) (variants : Table Variant) (rem : Remaining) (i : CartItem)
    (is : List CartItem) (sold : List Sold)
    → sell products variants rem (i ∷ is) ≡ ok sold
    → (o : Offer) × (rest : List Sold) × (offer products variants i ≡ ok o)
      × (i.quantity ≤ remaining_of rem o.unit o.stock)
      × (sell products variants ((o.unit, remaining_of rem o.unit o.stock - i.quantity) ∷ rem) is
          ≡ ok rest)
      × (sold ≡ record { item = i; price_cents = o.price_cents } ∷ rest)
unfolding sell
sell-cons products variants rem i is sold h =
    let (o, eo, h1) = bind_ok (offer products variants i) _ h in
    let available = remaining_of rem o.unit o.stock in
    let (enough, h2) =
      raise_ok (ltb available i.quantity) (cart_error (insufficient_stock available)) _ sold h1 in
    let (rest, er, h3) =
      bind_ok (sell products variants ((o.unit, available - i.quantity) ∷ rem) is) _ h2 in
    (o, rest, eo, ground arith, er, ground arith)

pub stock_unique :
    (products : Table Product) (variants : Table Variant) (u v : StockUnit) (s t : ℕ)
    → u ≡ v
    → unit_stock products variants u ≡ some s
    → unit_stock products variants v ≡ some t
    → s ≡ t
stock_unique products variants u v s t e a b = let c = rw e at a in ground arith

covered_step :
    (i : CartItem) (o : Offer) (rem : Remaining) (u : StockUnit) (s : ℕ) (rest sold : List Sold)
    → o.unit ≡ unit_of i
    → i.quantity ≤ remaining_of rem o.unit o.stock
    → unit_sold u rest
      ≤ remaining_of ((o.unit, remaining_of rem o.unit o.stock - i.quantity) ∷ rem) u s
    → sold ≡ record { item = i; price_cents = o.price_cents } ∷ rest
    → (unit_of i ≡ u → o.stock ≡ s)
    → unit_sold u sold ≤ remaining_of rem u s
covered_step i o rem u s rest sold eu enough later es same =
    rw es (elim (Bool-cases (same_unit (unit_of i) u)) [
      | inl t ↦
          let et = same_unit_iff (unit_of i) u t in
          let el = same et in
          let same_rest : remaining_of rem o.unit o.stock ≡ remaining_of rem u s =
            rw (eu, et, el) refl in
          let here : same_unit o.unit u ≡ true = rw eu t in
          let later' : unit_sold u rest ≤ remaining_of rem o.unit o.stock - i.quantity =
            ground arith in
          ground arith
      | inr f ↦ ground arith
    ])

more_left :
    (i : CartItem) (o : Offer) (u : StockUnit) (rest sold : List Sold)
    → sold ≡ record { item = i; price_cents = o.price_cents } ∷ rest
    → same_unit (unit_of i) u ≡ false
    → 0 < unit_sold u sold
    → 0 < unit_sold u rest
more_left i o u rest sold es f pos_n = let p = rw es at pos_n in ground arith

module _ (products : Table Product) (variants : Table Variant) (u : StockUnit) where
  -- Of a unit, no more is sold than what remains of it.
  pub sell-covered :
      (s : ℕ)
      → unit_stock products variants u ≡ some s
      → (items : List CartItem) (rem : Remaining) (sold : List Sold)
      → sell products variants rem items ≡ ok sold
      → unit_sold u sold ≤ remaining_of rem u s
  unfolding sell
  sell-covered s e [] rem sold h =
      let none_sold : sold ≡ [] = ground arith in rw none_sold (omega arith)
  sell-covered s e (i ∷ is) rem sold h =
      let (o, rest, eo, enough, er, es) = sell-cons products variants rem i is sold h in
      let (eu, stock) = offer-unit products variants i o eo in
      let left = remaining_of rem o.unit o.stock - i.quantity in
      let later = sell-covered s e is ((o.unit, left) ∷ rem) rest er in
      covered_step i o rem u s rest sold eu enough later es
        (λ same. stock_unique products variants (unit_of i) u o.stock s same stock e)

  -- A unit of which some is sold has a stock.
  pub sell-exists :
      (items : List CartItem) (rem : Remaining) (sold : List Sold)
      → sell products variants rem items ≡ ok sold
      → 0 < unit_sold u sold
      → (s : ℕ) × (unit_stock products variants u ≡ some s)
  unfolding sell
  sell-exists [] rem sold h pos_n =
      let none_sold : sold ≡ [] = ground arith in absurd (ground arith)
  sell-exists (i ∷ is) rem sold h pos_n =
      let (o, rest, eo, enough, er, es) = sell-cons products variants rem i is sold h in
      let (eu, stock) = offer-unit products variants i o eo in
      elim (Bool-cases (same_unit (unit_of i) u)) [
        | inl t ↦ (o.stock, rw (same_unit_iff (unit_of i) u t) at stock)
        | inr f ↦
            sell-exists is ((o.unit, remaining_of rem o.unit o.stock - i.quantity) ∷ rem) rest er
              (more_left i o u rest sold es f pos_n)
      ]
