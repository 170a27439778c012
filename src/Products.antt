-- ===== src/Products.antt =====
-- The stock of products and variants (app/modules/products/repositories/product_repository.py): the
-- rows that checkout and the order lifecycle lock and adjust. A table is a function from ids.
use fast_api_e_commerce.Prelude.{
  ℕ, zero, suc, ◌+◌, ◌-◌, Bool, true, false, Option, none, some, List, [], ◌∷◌, leb, ◌==◌,
  if◌then◌else◌, ℤ, pos, negsuc, ◌+ℤ◌, get_or,
}

pub record Product : Type 0 where
  pub price_cents : ℕ
  pub stock : ℕ
  pub option_count : ℕ
  pub classification_id : Option ℕ
  pub is_active : Bool

pub record Variant : Type 0 where
  pub product_id : ℕ
  pub price_override_cents : Option ℕ
  pub stock : ℕ
  pub is_active : Bool

abbrev pub Table : Type 0 → Type 0
Table A = ℕ → Option A

abbrev pub update : {A : Type 0} → Table A → ℕ → A → Table A
update t k v j = if k == j then some v else t j

-- A dict of stock changes; `deltas[id] = deltas.get(id, 0) + delta`.
abbrev pub Deltas : Type 0
Deltas = List (ℕ × ℤ)

unfoldable pub add_delta : ℕ → ℤ → Deltas → Deltas
add_delta id delta [] = (id, delta) ∷ []
add_delta id delta ((j, d) ∷ rest) =
    if j == id then (j, d +ℤ delta) ∷ rest else (j, d) ∷ add_delta id delta rest

-- `stock + delta`; the CHECK (stock >= 0) refuses a negative one
abbrev pub moved : ℕ → ℤ → Option ℕ
moved stock (pos n) = some (stock + n)
moved stock (negsuc n) = if leb (suc n) stock then some (stock - suc n) else none

abbrev is_zero : ℤ → Bool
is_zero (pos zero) = true
is_zero _ = false

-- one row of the UPDATE in `adjust_stock_many`; `none` where the row is missing or the check fails
abbrev adjust_one : Table Product → ℕ → ℤ → Option (Table Product)
adjust_one t id delta = elim (t id) [
  | none ↦ none
  | some p ↦ elim (moved p.stock delta) [
    | none ↦ none
    | some s ↦ some (update t id (record p { stock = s }))
  ]
]

unfoldable pub adjust_stock_many : Table Product → Deltas → Option (Table Product)
adjust_stock_many t [] = some t
adjust_stock_many t ((id, delta) ∷ rest) =
    if is_zero delta
    then adjust_stock_many t rest
    else elim (adjust_one t id delta) [ none ↦ none | some t' ↦ adjust_stock_many t' rest ]

abbrev adjust_variant : Table Variant → ℕ → ℤ → Option (Table Variant)
adjust_variant t id delta = elim (t id) [
  | none ↦ none
  | some v ↦ elim (moved v.stock delta) [
    | none ↦ none
    | some s ↦ some (update t id (record v { stock = s }))
  ]
]

unfoldable pub adjust_variant_stock_many : Table Variant → Deltas → Option (Table Variant)
adjust_variant_stock_many t [] = some t
adjust_variant_stock_many t ((id, delta) ∷ rest) =
    if is_zero delta then adjust_variant_stock_many t rest else elim (adjust_variant t id delta) [
      | none ↦ none
      | some t' ↦ adjust_variant_stock_many t' rest
    ]

-- `effective_price` of app/modules/products/services/product_view.py
abbrev pub effective_price : Variant → ℕ → ℕ
effective_price v base_price = get_or v.price_override_cents base_price
