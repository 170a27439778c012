-- ===== src/Returns/Given.antt =====
-- Stock changes that only give, and what they add to each product and variant.
use fast_api_e_commerce.Prelude.{
  ℕ, zero, suc, ◌+◌, some, [], ◌∷◌, ◌≡◌, arith, ◌==◌, if◌then◌else◌, pos, negsuc, ◌+ℤ◌,
  Option-cases, Bool-cases, inl, inr,
}
use fast_api_e_commerce.Products.{
  Product, Variant, Table, Deltas, add_delta, update, adjust_stock_many, adjust_variant_stock_many,
}

-- what the changes give to one id, where each of them gives
abbrev pub given : ℕ → Deltas → ℕ
given id [] = 0
given id ((j, pos n) ∷ ds) = (if j == id then n else 0) + given id ds
given id ((j, negsuc n) ∷ ds) = given id ds

abbrev pub Gives : Deltas → Type 0
Gives [] = Unit
Gives ((j, pos n) ∷ ds) = Gives ds
Gives ((j, negsuc n) ∷ ds) = ⊥

pub add_delta-given :
    (ds : Deltas) (id j n : ℕ)
    → Gives ds
    → Gives (add_delta j (pos n) ds)
      × (given id (add_delta j (pos n) ds) ≡ given id ds + (if j == id then n else 0))
unfolding add_delta ◌+ℤ◌
add_delta-given [] id j n g = (tt, ground arith)
add_delta-given ((k, pos m) ∷ ds) id j n g = ground (arith, add_delta-given ds id j n g)
add_delta-given ((k, negsuc m) ∷ ds) id j n g = absurd g

pub adjust_stock_many-given :
    (ds : Deltas) (t t' : Table Product) (id : ℕ) (p : Product)
    → Gives ds
    → adjust_stock_many t ds ≡ some t'
    → t id ≡ some p
    → t' id ≡ some (record p { stock = p.stock + given id ds })
unfolding adjust_stock_many
adjust_stock_many-given [] t t' id p g e h = ground arith
adjust_stock_many-given ((j, pos zero) ∷ ds) t t' id p g e h =
    ground (arith, adjust_stock_many-given ds t t' id p g e h)
adjust_stock_many-given ((j, pos (suc n)) ∷ ds) t t' id p g e h = elim (Option-cases (t j)) [
  | inl m ↦ absurd (ground arith)
  | inr (q, m) ↦
      let q' : Product = record q { stock = q.stock + suc n } in
      let u : Table Product = update t j q' in
      elim (Bool-cases (j == id)) [
        | inr d ↦ ground (arith, adjust_stock_many-given ds u t' id p g)
        | inl d ↦ ground (arith, adjust_stock_many-given ds u t' id q' g)
      ]
]
adjust_stock_many-given ((j, negsuc n) ∷ ds) t t' id p g e h = absurd g

pub adjust_variant_stock_many-given :
    (ds : Deltas) (t t' : Table Variant) (id : ℕ) (p : Variant)
    → Gives ds
    → adjust_variant_stock_many t ds ≡ some t'
    → t id ≡ some p
    → t' id ≡ some (record p { stock = p.stock + given id ds })
unfolding adjust_variant_stock_many
adjust_variant_stock_many-given [] t t' id p g e h = ground arith
adjust_variant_stock_many-given ((j, pos zero) ∷ ds) t t' id p g e h =
    ground (arith, adjust_variant_stock_many-given ds t t' id p g e h)
adjust_variant_stock_many-given ((j, pos (suc n)) ∷ ds) t t' id p g e h =
    elim (Option-cases (t j)) [
      | inl m ↦ absurd (ground arith)
      | inr (q, m) ↦
          let q' : Variant = record q { stock = q.stock + suc n } in
          let u : Table Variant = update t j q' in
          elim (Bool-cases (j == id)) [
            | inr d ↦ ground (arith, adjust_variant_stock_many-given ds u t' id p g)
            | inl d ↦ ground (arith, adjust_variant_stock_many-given ds u t' id q' g)
          ]
    ]
adjust_variant_stock_many-given ((j, negsuc n) ∷ ds) t t' id p g e h = absurd g
