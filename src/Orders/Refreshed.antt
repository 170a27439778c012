-- ===== src/Orders/Refreshed.antt =====
-- The lines of a cart after `set_price_snapshot` was called for each changed price.
use fast_api_e_commerce.Prelude.{
  ℕ, true, false, Option, List, [], ◌∷◌, ◌≡◌, refl, ap, ◌∙◌, arith, any, map, if◌then◌else◌,
  Bool-cases, inl, inr,
}
use fast_api_e_commerce.Cart.{CartItem, is_line}
use fast_api_e_commerce.Cart.Lines.{GoodLines}
use fast_api_e_commerce.Orders.Shop.{PriceChange}
use fast_api_e_commerce.Orders.Submit.{set_price_snapshot, refresh}

-- a line with the new price of a change that names it
abbrev pub repriced_by : PriceChange → CartItem → CartItem
repriced_by c i =
    if is_line c.product_id c.variant_id i
    then record i { price_cents_snapshot = c.new_price_cents }
    else i

-- the same for each of the changes
abbrev pub repriced : List PriceChange → CartItem → CartItem
repriced [] i = i
repriced (c ∷ cs) i = repriced cs (repriced_by c i)

other_lines :
    (c : PriceChange) (is : List CartItem)
    → any (is_line c.product_id c.variant_id) is ≡ false
    → map (repriced_by c) is ≡ is
other_lines c [] h = refl
other_lines c (i ∷ is) h = ground (arith, other_lines c is)

same_line :
    (p q : ℕ) (v w : Option ℕ) (i : CartItem) (is : List CartItem)
    → is_line p v i ≡ true
    → any (is_line i.product_id i.variant_id) is ≡ false
    → any (is_line p v) is ≡ false
same_line p q v w i [] e h = refl
same_line p q v w i (j ∷ js) e h = ground (arith, same_line p q v w i js)

set_price_snapshot-map :
    (c : PriceChange) (is : List CartItem)
    → GoodLines is
    → set_price_snapshot c is ≡ map (repriced_by c) is
unfolding GoodLines
set_price_snapshot-map c [] g = refl
set_price_snapshot-map c (i ∷ is) g = elim (Bool-cases (is_line c.product_id c.variant_id i)) [
  | inl e ↦
      let o = other_lines c is (same_line c.product_id 0 c.variant_id c.variant_id i is e g.1) in
      ground arith
  | inr e ↦ ground (arith, set_price_snapshot-map c is g.2)
]

any-repriced :
    (p : ℕ) (v : Option ℕ) (c : PriceChange) (is : List CartItem)
    → any (is_line p v) (map (repriced_by c) is) ≡ any (is_line p v) is
any-repriced p v c [] = refl
any-repriced p v c (i ∷ is) = ground (arith, any-repriced p v c is)

repriced-GoodLines :
    (c : PriceChange) (is : List CartItem) → GoodLines is → GoodLines (map (repriced_by c) is)
unfolding GoodLines
repriced-GoodLines c [] g = g
repriced-GoodLines c (i ∷ is) g =
    ground (arith, repriced-GoodLines c is g.2, any-repriced i.product_id i.variant_id c is)

map-repriced :
    (c : PriceChange) (cs : List PriceChange) (is : List CartItem)
    → map (repriced cs) (map (repriced_by c) is) ≡ map (repriced (c ∷ cs)) is
map-repriced c cs [] = refl
map-repriced c cs (i ∷ is) = ap (λ xs. repriced cs (repriced_by c i) ∷ xs) (map-repriced c cs is)

map_same : (is : List CartItem) → is ≡ map (repriced []) is
map_same [] = refl
map_same (i ∷ is) = ap (λ xs. i ∷ xs) (map_same is)

pub refresh-map :
    (cs : List PriceChange) (is : List CartItem)
    → GoodLines is
    → refresh cs is ≡ map (repriced cs) is
unfolding refresh
refresh-map [] is g = map_same is
refresh-map (c ∷ cs) is g =
    let e = set_price_snapshot-map c is g in
    ap (refresh cs) e
    ∙ refresh-map cs (map (repriced_by c) is) (repriced-GoodLines c is g)
    ∙ map-repriced c cs is
