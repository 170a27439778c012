-- ===== src/Orders/Stock/OfVariants.antt =====
-- The stock changes that checkout makes to the variants.
use fast_api_e_commerce.Prelude.{
  ℕ, zero, suc, ◌+◌, ◌-◌, ◌≤◌, ◌<◌, some, [], ◌∷◌, ◌≡◌, inl, inr, refl, ap, ◌∙◌, arith,
  if◌then◌else◌, Bool-cases, ◌==◌, pos, negsuc,
}
use fast_api_e_commerce.Orders.Stock.Deltas.{taken, Takes}
use fast_api_e_commerce.Products.{Variant, Table, update, Deltas, adjust_variant_stock_many}

-- a variant with n units less
abbrev pub less_variant : Variant → ℕ → Variant
less_variant p n = record p { stock = p.stock - n }

-- every id that something is taken from has a row with enough stock
unfoldable pub CoversVariants : Table Variant → Deltas → Type 0
CoversVariants t ds =
    (id : ℕ) → 0 < taken id ds → (p : Variant) × (t id ≡ some p) × (taken id ds ≤ p.stock)

-- the tables differ by what is taken
unfoldable pub TakenFromVariants : Table Variant → Deltas → Table Variant → Type 0
TakenFromVariants t ds t' =
    (id : ℕ) (p : Variant) → t id ≡ some p → t' id ≡ some (less_variant p (taken id ds))

adjust_variant_stock_many-head :
    (t : Table Variant) (j n : ℕ) (ds : Deltas) (p : Variant)
    → t j ≡ some p
    → suc n ≤ p.stock
    → adjust_variant_stock_many t ((j, negsuc n) ∷ ds)
      ≡ adjust_variant_stock_many (update t j (less_variant p (suc n))) ds
unfolding adjust_variant_stock_many
adjust_variant_stock_many-head t j n ds p e le = ground arith

updated_at :
    (t : Table Variant) (j id : ℕ) (p : Variant)
    → update t j p id ≡ (if j == id then some p else t id)
updated_at t j id p = refl

covers_rest :
    (t : Table Variant) (j n : ℕ) (ds : Deltas) (p : Variant)
    → t j ≡ some p
    → CoversVariants t ((j, negsuc n) ∷ ds)
    → CoversVariants (update t j (less_variant p (suc n))) ds
unfolding CoversVariants
covers_rest t j n ds p e c id pos_id = elim (Bool-cases (j == id)) [
  | inl same ↦
      let (q, eq, le) = c id (ground arith) in (less_variant p (suc n), ground arith, ground arith)
  | inr other ↦ let (q, eq, le) = c id (ground arith) in (q, ground arith, ground arith)
]

less_less : (p : Variant) (a b : ℕ) → less_variant (less_variant p a) b ≡ less_variant p (a + b)
less_less p a b =
    let e : p.stock - a - b ≡ p.stock - (a + b) = omega arith in ap (λ s. record p { stock = s }) e

taken-zero : (j : ℕ) (ds : Deltas) (id : ℕ) → taken id ((j, pos zero) ∷ ds) ≡ taken id ds
taken-zero j ds id = ground arith

taken_head :
    (t : Table Variant) (j n : ℕ) (ds : Deltas) (p : Variant) (t' : Table Variant)
    → t j ≡ some p
    → suc n ≤ p.stock
    → TakenFromVariants (update t j (less_variant p (suc n))) ds t'
    → TakenFromVariants t ((j, negsuc n) ∷ ds) t'
unfolding TakenFromVariants
taken_head t j n ds p t' e le f id q eq = elim (Bool-cases (j == id)) [
  | inl same ↦
      let one : q ≡ p = ground arith in
      let step = f id (less_variant p (suc n)) (ground arith) in
      ground (arith, less_less p (suc n) (taken id ds))
  | inr other ↦ let step = f id q (ground arith) in ground arith
]

-- Changes that the stock covers are all made.
pub adjust_variant_stock_many-total :
    (ds : Deltas) (t : Table Variant)
    → Takes ds
    → CoversVariants t ds
    → (t' : Table Variant) × (adjust_variant_stock_many t ds ≡ some t') × TakenFromVariants t ds t'
unfolding Takes adjust_variant_stock_many TakenFromVariants CoversVariants
adjust_variant_stock_many-total [] t h c = (t, refl, λ id p e. ground arith)
adjust_variant_stock_many-total ((j, pos zero) ∷ ds) t (z, h) c =
    let same = taken-zero j ds in
    let (t', run, f) =
      adjust_variant_stock_many-total ds t h
        (λ id pos_id. rw (same id) at (c id (rw (same id) pos_id))) in
    (t', run, λ id p e. rw (same id) (f id p e))
adjust_variant_stock_many-total ((j, pos (suc n)) ∷ ds) t (z, h) c = absurd (omega arith)
adjust_variant_stock_many-total ((j, negsuc n) ∷ ds) t (z, h) c =
    let (p, e, le) = c j (ground arith) in
    let enough : suc n ≤ p.stock = ground arith in
    let (t', run, f) =
      adjust_variant_stock_many-total ds (update t j (less_variant p (suc n))) h
        (covers_rest t j n ds p e c) in
    (
      t',
      adjust_variant_stock_many-head t j n ds p e enough ∙ run,
      taken_head t j n ds p t' e enough f,
    )
