-- ===== src/Orders/Stock/OfProducts.antt =====
-- The stock changes that checkout makes to the products.
use fast_api_e_commerce.Prelude.{
  ℕ, zero, suc, ◌+◌, ◌-◌, ◌≤◌, ◌<◌, some, [], ◌∷◌, ◌≡◌, inl, inr, refl, ap, ◌∙◌, arith,
  if◌then◌else◌, Bool-cases, ◌==◌, pos, negsuc,
}
use fast_api_e_commerce.Orders.Stock.Deltas.{taken, Takes}
use fast_api_e_commerce.Products.{Product, Table, update, Deltas, adjust_stock_many}

-- a product with n units less
abbrev pub less_product : Product → ℕ → Product
less_product p n = record p { stock = p.stock - n }

-- every id that something is taken from has a row with enough stock
unfoldable pub CoversProducts : Table Product → Deltas → Type 0
CoversProducts t ds =
    (id : ℕ) → 0 < taken id ds → (p : Product) × (t id ≡ some p) × (taken id ds ≤ p.stock)

-- the tables differ by what is taken
unfoldable pub TakenFromProducts : Table Product → Deltas → Table Product → Type 0
TakenFromProducts t ds t' =
    (id : ℕ) (p : Product) → t id ≡ some p → t' id ≡ some (less_product p (taken id ds))

adjust_stock_many-head :
    (t : Table Product) (j n : ℕ) (ds : Deltas) (p : Product)
    → t j ≡ some p
    → suc n ≤ p.stock
    → adjust_stock_many t ((j, negsuc n) ∷ ds)
      ≡ adjust_stock_many (update t j (less_product p (suc n))) ds
unfolding adjust_stock_many
adjust_stock_many-head t j n ds p e le = ground arith

updated_at :
    (t : Table Product) (j id : ℕ) (p : Product)
    → update t j p id ≡ (if j == id then some p else t id)
updated_at t j id p = refl

covers_rest :
    (t : Table Product) (j n : ℕ) (ds : Deltas) (p : Product)
    → t j ≡ some p
    → CoversProducts t ((j, negsuc n) ∷ ds)
    → CoversProducts (update t j (less_product p (suc n))) ds
unfolding CoversProducts
covers_rest t j n ds p e c id pos_id = elim (Bool-cases (j == id)) [
  | inl same ↦
      let (q, eq, le) = c id (ground arith) in (less_product p (suc n), ground arith, ground arith)
  | inr other ↦ let (q, eq, le) = c id (ground arith) in (q, ground arith, ground arith)
]

less_less : (p : Product) (a b : ℕ) → less_product (less_product p a) b ≡ less_product p (a + b)
less_less p a b =
    let e : p.stock - a - b ≡ p.stock - (a + b) = omega arith in ap (λ s. record p { stock = s }) e

taken-zero : (j : ℕ) (ds : Deltas) (id : ℕ) → taken id ((j, pos zero) ∷ ds) ≡ taken id ds
taken-zero j ds id = ground arith

taken_head :
    (t : Table Product) (j n : ℕ) (ds : Deltas) (p : Product) (t' : Table Product)
    → t j ≡ some p
    → suc n ≤ p.stock
    → TakenFromProducts (update t j (less_product p (suc n))) ds t'
    → TakenFromProducts t ((j, negsuc n) ∷ ds) t'
unfolding TakenFromProducts
taken_head t j n ds p t' e le f id q eq = elim (Bool-cases (j == id)) [
  | inl same ↦
      let one : q ≡ p = ground arith in
      let step = f id (less_product p (suc n)) (ground arith) in
      ground (arith, less_less p (suc n) (taken id ds))
  | inr other ↦ let step = f id q (ground arith) in ground arith
]

-- Changes that the stock covers are all made.
pub adjust_stock_many-total :
    (ds : Deltas) (t : Table Product)
    → Takes ds
    → CoversProducts t ds
    → (t' : Table Product) × (adjust_stock_many t ds ≡ some t') × TakenFromProducts t ds t'
unfolding Takes adjust_stock_many TakenFromProducts CoversProducts
adjust_stock_many-total [] t h c = (t, refl, λ id p e. ground arith)
adjust_stock_many-total ((j, pos zero) ∷ ds) t (z, h) c =
    let same = taken-zero j ds in
    let (t', run, f) =
      adjust_stock_many-total ds t h (λ id pos_id. rw (same id) at (c id (rw (same id) pos_id))) in
    (t', run, λ id p e. rw (same id) (f id p e))
adjust_stock_many-total ((j, pos (suc n)) ∷ ds) t (z, h) c = absurd (omega arith)
adjust_stock_many-total ((j, negsuc n) ∷ ds) t (z, h) c =
    let (p, e, le) = c j (ground arith) in
    let enough : suc n ≤ p.stock = ground arith in
    let (t', run, f) =
      adjust_stock_many-total ds (update t j (less_product p (suc n))) h
        (covers_rest t j n ds p e c) in
    (t', adjust_stock_many-head t j n ds p e enough ∙ run, taken_head t j n ds p t' e enough f)
