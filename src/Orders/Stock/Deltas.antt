-- ===== src/Orders/Stock/Deltas.antt =====
-- What checkout's stock changes come to, for each id.
use fast_api_e_commerce.Prelude.{
  ℕ, ◌+◌, List, [], ◌∷◌, ◌≡◌, inl, inr, arith, if◌then◌else◌, Option-cases, ◌==◌, ◌+ℤ◌, pos_part,
  neg_part, sub_ℕ,
}
use fast_api_e_commerce.Products.{Deltas, add_delta}
use fast_api_e_commerce.Orders.Sell.{product_unit, variant_unit, Sold, stock_deltas, variant_deltas}
use fast_api_e_commerce.Orders.Stock.{unit_sold}

-- what the changes take from one id, if each of them takes
abbrev pub taken : ℕ → Deltas → ℕ
taken id [] = 0
taken id ((j, d) ∷ ds) = let rest = taken id ds in if j == id then neg_part d + rest else rest

unfoldable pub Takes : Deltas → Type 0
Takes [] = Unit
Takes ((j, d) ∷ ds) = (pos_part d ≡ 0) × Takes ds

add_delta-taken :
    (id j q : ℕ) (ds : Deltas)
    → Takes ds
    → Takes (add_delta j (sub_ℕ 0 q) ds)
      × (taken id (add_delta j (sub_ℕ 0 q) ds) ≡ taken id ds + (if j == id then q else 0))
unfolding add_delta Takes ◌+ℤ◌
add_delta-taken id j q [] t = (ground arith, ground arith)
add_delta-taken id j q ((k, d) ∷ ds) (a, b) =
    let (c, e) = add_delta-taken id j q ds b in (ground arith, ground arith)

pub stock_deltas-taken :
    (id : ℕ) (sold : List Sold) (acc : Deltas)
    → Takes acc
    → Takes (stock_deltas sold acc)
      × (taken id (stock_deltas sold acc) ≡ taken id acc + unit_sold (product_unit id) sold)
unfolding stock_deltas
stock_deltas-taken id [] acc t = (t, omega arith)
stock_deltas-taken id (s ∷ ss) acc t = elim (Option-cases s.item.variant_id) [
  | inl e ↦
      let (t', e') = add_delta-taken id s.item.product_id s.item.quantity acc t in
      let (t'', e'') =
        stock_deltas-taken id ss (add_delta s.item.product_id (sub_ℕ 0 s.item.quantity) acc) t' in
      (ground arith, ground arith)
  | inr (v, e) ↦ let (t'', e'') = stock_deltas-taken id ss acc t in (ground arith, ground arith)
]

pub variant_deltas-taken :
    (id : ℕ) (sold : List Sold) (acc : Deltas)
    → Takes acc
    → Takes (variant_deltas sold acc)
      × (taken id (variant_deltas sold acc) ≡ taken id acc + unit_sold (variant_unit id) sold)
unfolding variant_deltas
variant_deltas-taken id [] acc t = (t, omega arith)
variant_deltas-taken id (s ∷ ss) acc t = elim (Option-cases s.item.variant_id) [
  | inl e ↦ let (t'', e'') = variant_deltas-taken id ss acc t in (ground arith, ground arith)
  | inr (v, e) ↦
      let (t', e') = add_delta-taken id v s.item.quantity acc t in
      let (t'', e'') = variant_deltas-taken id ss (add_delta v (sub_ℕ 0 s.item.quantity) acc) t' in
      (ground arith, ground arith)
]
