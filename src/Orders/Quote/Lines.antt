-- ===== src/Orders/Quote/Lines.antt =====
-- The lines that checkout sells, in a quote.
use fast_api_e_commerce.Prelude.{
  ℕ, ◌-◌, ◌≤◌, ◌<◌, none, some, List, [], ◌∷◌, ok, ◌≡◌, inl, inr, refl, arith, Option-cases,
  Bool-cases,
}
use fast_api_e_commerce.Products.{Product, Variant, Table}
use fast_api_e_commerce.Cart.{CartItem}
use fast_api_e_commerce.Cart.View.{LineState, line_state}
use fast_api_e_commerce.Orders.Sell.{
  StockUnit, same_unit, Offer, offer, Sold, Remaining, remaining_of, sell, insert_line,
  sorted_items,
}
use fast_api_e_commerce.Orders.Stock.{
  unit_stock, offer_product-inv, offer_variant-inv, offer-unit, same_unit_iff, stock_unique,
  sell-cons,
}
use fast_api_e_commerce.Orders.Quote.{item_state, quoted, blocking_of}

-- every quantity is positive
unfoldable pub Positive : List CartItem → Type 0
Positive [] = Unit
Positive (i ∷ is) = (0 < i.quantity) × Positive is

insert_line-Positive :
    (i : CartItem) (is : List CartItem) → 0 < i.quantity → Positive is → Positive (insert_line i is)
unfolding insert_line Positive
insert_line-Positive i [] p t = (p, tt)
insert_line-Positive i (j ∷ js) p (a, b) = ground (arith, insert_line-Positive i js p b)

pub sorted_items-Positive : (is : List CartItem) → Positive is → Positive (sorted_items is)
unfolding sorted_items Positive
sorted_items-Positive [] t = tt
sorted_items-Positive (i ∷ is) (a, b) =
    insert_line-Positive i (sorted_items is) a (sorted_items-Positive is b)

module _ (products : Table Product) (variants : Table Variant) where
  -- nothing remains but what there was
  Bounded : Remaining → Type 0
  Bounded rem =
      (u : StockUnit) (s : ℕ) → unit_stock products variants u ≡ some s → remaining_of rem u s ≤ s

  cons-Bounded :
      (rem : Remaining) (o : Offer) (n : ℕ)
      → Bounded rem
      → unit_stock products variants o.unit ≡ some o.stock
      → n ≤ o.stock
      → Bounded ((o.unit, n) ∷ rem)
  unfolding Bounded
  cons-Bounded rem o n b eo le u s e = elim (Bool-cases (same_unit o.unit u)) [
    | inl t ↦
        let same =
          stock_unique products variants o.unit u o.stock s (same_unit_iff o.unit u t) eo e in
        ground arith
    | inr f ↦ let le' = b u s e in ground arith
  ]

  -- a line that is offered, in enough stock, has no reason against it, and the offer's price
  offered-item_state :
      (i : CartItem) (o : Offer)
      → offer products variants i ≡ ok o
      → 0 < i.quantity
      → i.quantity ≤ o.stock
      → item_state products variants i
        ≡ some (record { price_cents = o.price_cents; stock = o.stock; reason = none })
  unfolding offer item_state line_state
  offered-item_state i o h pos_q le = elim (Option-cases i.variant_id) [
    | inl e ↦
        let (q, ep, eu, es, a, c) =
          offer_product-inv i.product_id (products i.product_id) o (ground arith) in
        ground arith
    | inr (v, e) ↦
        let (q, w, ep, ev, eu, es, a, b, c) =
          offer_variant-inv i.product_id v (products i.product_id) (variants v) o (ground arith) in
        ground arith
  ]

  quoted-cons :
      (i : CartItem) (is : List CartItem) (s : LineState) (rest : List Sold)
      → item_state products variants i ≡ some s
      → s.reason ≡ none
      → quoted products variants is ≡ ok rest
      → blocking_of products variants is ≡ []
      → (quoted products variants (i ∷ is)
          ≡ ok (record { item = i; price_cents = s.price_cents } ∷ rest))
        × (blocking_of products variants (i ∷ is) ≡ [])
  unfolding quoted blocking_of
  quoted-cons i is s rest e r a b = (ground arith, ground arith)

  -- what is sold is quoted at the same prices, with nothing in the way
  sold-quoted :
      (items : List CartItem) (rem : Remaining) (sold : List Sold)
      → Positive items
      → Bounded rem
      → sell products variants rem items ≡ ok sold
      → (quoted products variants items ≡ ok sold) × (blocking_of products variants items ≡ [])
  unfolding sell quoted blocking_of Positive Bounded
  sold-quoted [] rem sold t b h = (h, refl)
  sold-quoted (i ∷ is) rem sold (pos_q, t) b h =
      let (o, rest, eo, enough, er, es) = sell-cons products variants rem i is sold h in
      let (eu, stock) = offer-unit products variants i o eo in
      let here : unit_stock products variants o.unit ≡ some o.stock = rw eu stock in
      let most = b o.unit o.stock here in
      let left = remaining_of rem o.unit o.stock - i.quantity in
      let (q, bl) =
        sold-quoted is ((o.unit, left) ∷ rem) rest t (cons-Bounded rem o left b here (omega arith))
          er in
      rw es (quoted-cons i is _ rest (offered-item_state i o eo pos_q (omega arith)) refl q bl)

  pub sell-quoted :
      (items : List CartItem) (sold : List Sold)
      → Positive items
      → sell products variants [] items ≡ ok sold
      → (quoted products variants items ≡ ok sold) × (blocking_of products variants items ≡ [])
  unfolding Bounded
  sell-quoted items sold t h = sold-quoted items [] sold t (λ u s e. omega arith) h
