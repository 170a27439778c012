-- ===== src/Tax/Invoice/Balance/Rows.antt =====
-- Sums over the lines of an invoice.
use fast_api_e_commerce.Prelude.{
  ℕ, suc, ◌+◌, ◌<◌, ◌≡◌, ◌∙◌, refl, ap, Bool, List, [], ◌∷◌, arith, length, sum, nth, ℤ, pos, ◌+ℤ◌,
  sum_ℤ, int_laws, length-replicate, range_sum, range_sum-nth,
}
use fast_api_e_commerce.Tax.Gst.{
  CalcLine, LineTax, PricingMode, exclusive, inclusive, Rates, RoundingPolicy, line_half_up,
}
use fast_api_e_commerce.Tax.Policy.{
  Columns, Slabs, line_columns, add_slab, add_slabs, group_slabs, zero_columns,
}
use fast_api_e_commerce.Tax.Allocate.Decimals.{amount_bound}
use fast_api_e_commerce.Tax.Gst.Slab.{slab_tax-exclusive}
use fast_api_e_commerce.Tax.Policy.Totals.{length-put_parts, AllInRange, add_slabs-exclusive}
use fast_api_e_commerce.Tax.Invoice.{values_of, all_rates, columns_of, row, per_line, round_offs}

-- a field of the lines, added up
abbrev pub total_of : (LineTax → ℕ) → List LineTax → ℕ
total_of f [] = 0
total_of f (l ∷ ls) = f l + total_of f ls

module _ (shipped grosses : List ℕ) (c : Columns) (mode : PricingMode) where
  -- A field that the row of index i takes from the i-th of a list adds up as that list does.
  pub total_of-per_line :
      (f : LineTax → ℕ) (xs : List ℕ) (i : ℕ) (ls : List CalcLine)
      → ((k : ℕ) (l : CalcLine) → f (row k l shipped grosses c mode) ≡ nth k xs)
      → total_of f (per_line i ls shipped grosses c mode) ≡ range_sum (λ k. nth k xs) i (length ls)
  unfolding per_line
  total_of-per_line f xs i [] h = refl
  total_of-per_line f xs i (l ∷ ls) h = omega (arith, h i l, total_of-per_line f xs (suc i) ls h)

  pub total_of-field :
      (f : LineTax → ℕ) (xs : List ℕ) (ls : List CalcLine)
      → ((k : ℕ) (l : CalcLine) → f (row k l shipped grosses c mode) ≡ nth k xs)
      → length xs ≡ length ls
      → total_of f (per_line 0 ls shipped grosses c mode) ≡ sum xs
  total_of-field f xs ls h e = total_of-per_line f xs 0 ls h ∙ rw (← e) (range_sum-nth xs)

-- what the fields of a line say under inclusive pricing
abbrev pub paid : LineTax → ℕ
paid l = l.taxable_paise + l.cgst_paise + l.sgst_paise + l.igst_paise

pub total_of-paid :
    (rows : List LineTax)
    → total_of paid rows
      ≡ total_of (λ l. l.taxable_paise) rows
        + total_of (λ l. l.cgst_paise) rows
        + total_of (λ l. l.sgst_paise) rows
        + total_of (λ l. l.igst_paise) rows
total_of-paid [] = refl
total_of-paid (l ∷ ls) = omega (arith, total_of-paid ls)

row-balance :
    (i : ℕ) (l : CalcLine) (shipped grosses : List ℕ) (c : Columns)
    → let r = row i l shipped grosses c inclusive in
      pos r.gross_paise ≡ pos (paid r) +ℤ r.round_off_paise
unfolding row
row-balance i l shipped grosses c = omega int_laws

add_balance :
    (a a' b b' : ℕ) (x y : ℤ)
    → pos a ≡ pos b +ℤ x
    → pos a' ≡ pos b' +ℤ y
    → pos (a + a') ≡ pos (b + b') +ℤ (x +ℤ y)
add_balance a a' b b' x y e f = pos-add a a' ∙ rw (e, f) (omega int_laws)
  where
    pos-add : (m n : ℕ) → pos (m + n) ≡ pos m +ℤ pos n
    pos-add m n = omega int_laws

pub sum_ℤ-round_offs :
    (i : ℕ) (ls : List CalcLine) (shipped grosses : List ℕ) (c : Columns)
    → let rows = per_line i ls shipped grosses c inclusive in
      pos (total_of (λ l. l.gross_paise) rows) ≡ pos (total_of paid rows) +ℤ sum_ℤ (round_offs rows)
unfolding per_line round_offs
sum_ℤ-round_offs i [] shipped grosses c = omega int_laws
sum_ℤ-round_offs i (l ∷ ls) shipped grosses c =
    let r = row i l shipped grosses c inclusive in
    let rows = per_line (suc i) ls shipped grosses c inclusive in
    add_balance r.gross_paise (total_of (λ l. l.gross_paise) rows) (paid r) (total_of paid rows)
      r.round_off_paise (sum_ℤ (round_offs rows)) (row-balance i l shipped grosses c)
      (sum_ℤ-round_offs (suc i) ls shipped grosses c)

pub sum_ℤ-round_offs_exclusive :
    (i : ℕ) (ls : List CalcLine) (shipped grosses : List ℕ) (c : Columns)
    → sum_ℤ (round_offs (per_line i ls shipped grosses c exclusive)) ≡ pos 0
unfolding per_line round_offs row ◌+ℤ◌
sum_ℤ-round_offs_exclusive i [] shipped grosses c = refl
sum_ℤ-round_offs_exclusive i (l ∷ ls) shipped grosses c =
    rw (sum_ℤ-round_offs_exclusive (suc i) ls shipped grosses c)

-- the four columns have one amount to each line
abbrev pub HasLength : ℕ → Columns → Type 0
HasLength n c =
    (length c.taxable ≡ n) × (length c.cgst ≡ n) × (length c.sgst ≡ n) × (length c.igst ≡ n)

line_columns-HasLength :
    (vs : List ℕ) (rs : List Rates) (mode : PricingMode)
    → length rs ≡ length vs
    → HasLength (length vs) (line_columns vs rs mode)
unfolding line_columns
line_columns-HasLength [] rs mode e = (refl, refl, refl, refl)
line_columns-HasLength (v ∷ vs) [] mode e = absurd (omega arith)
line_columns-HasLength (v ∷ vs) (r ∷ rs) mode e =
    omega (arith, line_columns-HasLength vs rs mode (omega arith))

add_slabs-HasLength :
    (n : ℕ) (grosses : List ℕ) (mode : PricingMode) (ss : Slabs) (c : Columns)
    → HasLength n c
    → HasLength n (add_slabs grosses mode ss c)
unfolding add_slabs
add_slabs-HasLength n grosses mode [] c h = h
add_slabs-HasLength n grosses mode ((r, ms) ∷ ss) c h =
    add_slabs-HasLength n grosses mode ss (add_slab grosses mode (r, ms) c) (
      length-put_parts ms _ c.taxable ∙ h.0,
      length-put_parts ms _ c.cgst ∙ h.1,
      length-put_parts ms _ c.sgst ∙ h.2,
      length-put_parts ms _ c.igst ∙ h.3,
    )

zero_columns-HasLength : (n : ℕ) → HasLength n (zero_columns n)
unfolding zero_columns
zero_columns-HasLength n = let e = length-replicate {A = ℕ} n 0 in (e, e, e, e)

pub columns_of-HasLength :
    (policy : RoundingPolicy) (grosses : List ℕ) (rs : List Rates) (mode : PricingMode)
    → length rs ≡ length grosses
    → HasLength (length grosses) (columns_of policy grosses rs mode)
unfolding columns_of
columns_of-HasLength line_half_up grosses rs mode e = line_columns-HasLength grosses rs mode e
columns_of-HasLength _ grosses rs mode e =
    add_slabs-HasLength (length grosses) grosses mode (group_slabs 0 rs [])
      (zero_columns (length grosses)) (zero_columns-HasLength (length grosses))

pub length-all_rates : (ls : List CalcLine) (intra : Bool) → length (all_rates ls intra) ≡ length ls
unfolding all_rates
length-all_rates [] intra = refl
length-all_rates (l ∷ ls) intra = ap suc (length-all_rates ls intra)

pub length-values_of : (ls : List CalcLine) → length (values_of ls) ≡ length ls
unfolding values_of
length-values_of [] = refl
length-values_of (l ∷ ls) = ap suc (length-values_of ls)

-- Rounded line by line, the whole value of the lines is taxable under exclusive pricing.
line_columns-exclusive :
    (vs : List ℕ) (rs : List Rates)
    → length rs ≡ length vs
    → sum (line_columns vs rs exclusive).taxable ≡ sum vs
unfolding line_columns
line_columns-exclusive [] rs e = refl
line_columns-exclusive (v ∷ vs) [] e = absurd (omega arith)
line_columns-exclusive (v ∷ vs) (r ∷ rs) e =
    omega (arith, line_columns-exclusive vs rs (omega arith), slab_tax-exclusive v r)

-- Under exclusive pricing the whole value of the lines is taxable, however tax is rounded.
pub columns_of-exclusive :
    (policy : RoundingPolicy) (vs : List ℕ) (rs : List Rates)
    → length rs ≡ length vs
    → sum vs < amount_bound
    → AllInRange rs
    → sum (columns_of policy vs rs exclusive).taxable ≡ sum vs
unfolding columns_of
columns_of-exclusive line_half_up vs rs e small rates = line_columns-exclusive vs rs e
columns_of-exclusive _ vs rs e small rates = add_slabs-exclusive vs rs e small rates
