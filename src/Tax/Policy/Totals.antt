-- ===== src/Tax/Policy/Totals.antt =====
-- Rounding once for each slab and spreading back: what the lines get and what the slabs owe.
mod Spread
use fast_api_e_commerce.Prelude.{
  ℕ, zero, suc, ◌+◌, ◌*◌, ◌≤◌, ◌<◌, ◌≡◌, ◌∙◌, refl, ap, Bool, true, false, List, [], ◌∷◌, ◌++◌,
  arith, inl, inr, Bool-cases, ◌==◌, if◌then◌else◌, length, replicate, sum, nth, leb, ltb,
  sum-replicate_zero, nth-zeros, length-replicate,
}
use fast_api_e_commerce.Tax.Allocate.{allocate}
use fast_api_e_commerce.Tax.Allocate.Decimals.{amount_bound}
use fast_api_e_commerce.Tax.Allocate.Shares.{sum-allocate, length-allocate}
use fast_api_e_commerce.Tax.Gst.{Rates, PricingMode, exclusive, inclusive, slab_tax, Amounts}
use fast_api_e_commerce.Tax.Gst.Slab.{RatesInRange, slab_tax-le, slab_tax-exclusive}
use fast_api_e_commerce.Tax.Policy.{
  Slabs, Columns, add_member, group_slabs, pick, put_parts, add_slab, add_slabs, zero_columns,
}
pub use Spread.{length-put_parts}
use Spread.{
  member_sum, slab_sum, is_at, is_beyond, sum-pick, length-pick, sum-put_parts, slab_sum-put_parts,
  group_slabs_once, group_slabs_in_range, sum-group_slabs,
}

abbrev Slab : Type 0
Slab = Rates × List ℕ

-- what a slab's lines come to together
abbrev pub slab_value : List ℕ → Slab → ℕ
slab_value grosses (r, members) = sum (pick grosses members)

-- the sum of an amount over the slabs
abbrev pub slabs_total : (Slab → ℕ) → Slabs → ℕ
slabs_total owed [] = 0
slabs_total owed (s ∷ ss) = owed s + slabs_total owed ss

-- One column of `add_slabs`, for the amount that each slab owes in it.
column : (Slab → ℕ) → List ℕ → Slabs → List ℕ → List ℕ
column owed grosses [] xs = xs
column owed grosses ((r, members) ∷ ss) xs =
    column owed grosses ss
      (put_parts members (allocate (owed (r, members)) (pick grosses members)) xs)

-- What a slab owes is below the bound, and nothing where its lines cost nothing.
abbrev Payable : (Slab → ℕ) → List ℕ → Slabs → Type 0
Payable owed grosses [] = Unit
Payable owed grosses (s ∷ ss) =
    (owed s < amount_bound)
    × (slab_value grosses s < amount_bound)
    × (slab_value grosses s ≡ 0 → owed s ≡ 0)
    × Payable owed grosses ss

sum_of_parts :
    (owed : Slab → ℕ) (grosses : List ℕ) (s : Slab)
    → owed s < amount_bound
    → slab_value grosses s < amount_bound
    → (slab_value grosses s ≡ 0 → owed s ≡ 0)
    → sum (allocate (owed s) (pick grosses s.1)) ≡ owed s
sum_of_parts owed grosses (r, ms) small fits free =
    ground (arith, sum-allocate (owed (r, ms)) (pick grosses ms) small fits)

sum-column :
    (owed : Slab → ℕ) (grosses : List ℕ) (ss : Slabs) (xs : List ℕ)
    → Payable owed grosses ss
    → ((k : ℕ) → slab_sum (is_at k) ss ≤ 1)
    → slab_sum (is_beyond (length xs)) ss ≡ 0
    → slab_sum (λ k. nth k xs) ss ≡ 0
    → sum (column owed grosses ss xs) ≡ sum xs + slabs_total owed ss
unfolding column
sum-column owed grosses [] xs pay once inside blank = omega arith
sum-column owed grosses ((r, members) ∷ ss) xs pay once inside blank =
    let weights = pick grosses members in
    let parts = allocate (owed (r, members)) weights in
    let all_in = length-put_parts members parts xs in
    omega (
      arith,
      sum-column owed grosses ss (put_parts members parts xs) pay.3 (λ k. omega (arith, once k))
          (rw all_in (omega arith)) (slab_sum-put_parts members parts xs ss once ∙ omega arith),
      sum-put_parts members parts xs (λ k. omega (arith, once k)) (omega arith)
          (length-allocate (owed (r, members)) weights ∙ length-pick grosses members),
      sum_of_parts owed grosses (r, members) pay.0 pay.1 pay.2,
    )

-- The four columns of `add_slabs`, each on its own.
add_slabs-taxable :
    (grosses : List ℕ) (mode : PricingMode) (ss : Slabs) (c : Columns)
    → (add_slabs grosses mode ss c).taxable
      ≡ column (λ s. (slab_tax (slab_value grosses s) s.0 mode).taxable) grosses ss c.taxable
unfolding add_slabs add_slab column
add_slabs-taxable grosses mode [] c = refl
add_slabs-taxable grosses mode ((r, ms) ∷ ss) c =
    add_slabs-taxable grosses mode ss (add_slab grosses mode (r, ms) c)

add_slabs-cgst :
    (grosses : List ℕ) (mode : PricingMode) (ss : Slabs) (c : Columns)
    → (add_slabs grosses mode ss c).cgst
      ≡ column (λ s. (slab_tax (slab_value grosses s) s.0 mode).cgst) grosses ss c.cgst
unfolding add_slabs add_slab column
add_slabs-cgst grosses mode [] c = refl
add_slabs-cgst grosses mode ((r, ms) ∷ ss) c =
    add_slabs-cgst grosses mode ss (add_slab grosses mode (r, ms) c)

add_slabs-sgst :
    (grosses : List ℕ) (mode : PricingMode) (ss : Slabs) (c : Columns)
    → (add_slabs grosses mode ss c).sgst
      ≡ column (λ s. (slab_tax (slab_value grosses s) s.0 mode).sgst) grosses ss c.sgst
unfolding add_slabs add_slab column
add_slabs-sgst grosses mode [] c = refl
add_slabs-sgst grosses mode ((r, ms) ∷ ss) c =
    add_slabs-sgst grosses mode ss (add_slab grosses mode (r, ms) c)

add_slabs-igst :
    (grosses : List ℕ) (mode : PricingMode) (ss : Slabs) (c : Columns)
    → (add_slabs grosses mode ss c).igst
      ≡ column (λ s. (slab_tax (slab_value grosses s) s.0 mode).igst) grosses ss c.igst
unfolding add_slabs add_slab column
add_slabs-igst grosses mode [] c = refl
add_slabs-igst grosses mode ((r, ms) ∷ ss) c =
    add_slabs-igst grosses mode ss (add_slab grosses mode (r, ms) c)

abbrev pub AllInRange : List Rates → Type 0
AllInRange [] = Unit
AllInRange (r ∷ rs) = RatesInRange r × AllInRange rs

abbrev SlabsInRange : Slabs → Type 0
SlabsInRange [] = Unit
SlabsInRange ((r, _) ∷ ss) = RatesInRange r × SlabsInRange ss

add_member-SlabsInRange :
    (r : Rates) (i : ℕ) (ss : Slabs)
    → RatesInRange r
    → SlabsInRange ss
    → SlabsInRange (add_member r i ss)
unfolding add_member
add_member-SlabsInRange r i [] h hs = (h, tt)
add_member-SlabsInRange r i ((q, ms) ∷ ss) h hs =
    ground (arith, add_member-SlabsInRange r i ss h hs.1)

group_slabs-SlabsInRange :
    (i : ℕ) (rs : List Rates) (ss : Slabs)
    → AllInRange rs
    → SlabsInRange ss
    → SlabsInRange (group_slabs i rs ss)
unfolding group_slabs
group_slabs-SlabsInRange i [] ss h hs = hs
group_slabs-SlabsInRange i (r ∷ rs) ss h hs =
    group_slabs-SlabsInRange (suc i) rs (add_member r i ss) h.1
      (add_member-SlabsInRange r i ss h.0 hs)

slabs_total-slab_value :
    (grosses : List ℕ) (ss : Slabs)
    → slabs_total (slab_value grosses) ss ≡ slab_sum (λ k. nth k grosses) ss
slabs_total-slab_value grosses [] = refl
slabs_total-slab_value grosses ((r, ms) ∷ ss) =
    omega (arith, sum-pick grosses ms, slabs_total-slab_value grosses ss)

-- An amount of at most the slab's value can be spread.
Payable-of_le :
    (owed : Slab → ℕ) (grosses : List ℕ) (ss : Slabs)
    → ((s : Slab) → RatesInRange s.0 → owed s ≤ slab_value grosses s)
    → SlabsInRange ss
    → slabs_total (slab_value grosses) ss < amount_bound
    → Payable owed grosses ss
Payable-of_le owed grosses [] le hs small = tt
Payable-of_le owed grosses ((r, ms) ∷ ss) le hs small = (
  omega (arith, le (r, ms) hs.0),
  omega arith,
  λ e. omega (arith, le (r, ms) hs.0),
  Payable-of_le owed grosses ss le hs.1 (omega arith),
)

member_sum-zeros : (n : ℕ) (is : List ℕ) → member_sum (λ k. nth k (replicate n 0)) is ≡ 0
member_sum-zeros n [] = refl
member_sum-zeros n (i ∷ is) = omega (arith, nth-zeros i n, member_sum-zeros n is)

slab_sum-zeros : (n : ℕ) (ss : Slabs) → slab_sum (λ k. nth k (replicate n 0)) ss ≡ 0
slab_sum-zeros n [] = refl
slab_sum-zeros n ((r, ms) ∷ ss) = omega (arith, member_sum-zeros n ms, slab_sum-zeros n ss)

module _ (grosses : List ℕ) (rs : List Rates) (same : length rs ≡ length grosses)
    (small : sum grosses < amount_bound) (rates : AllInRange rs) where
  sum-column_of_zeros :
      (owed : Slab → ℕ)
      → ((s : Slab) → RatesInRange s.0 → owed s ≤ slab_value grosses s)
      → sum (column owed grosses (group_slabs 0 rs []) (replicate (length grosses) 0))
        ≡ slabs_total owed (group_slabs 0 rs [])
  sum-column_of_zeros owed le =
      let ss = group_slabs 0 rs [] in
      let zeros : List ℕ = replicate (length grosses) 0 in
      omega (
        arith,
        sum-column owed grosses ss zeros
            (Payable-of_le owed grosses ss le (group_slabs-SlabsInRange 0 rs [] rates tt)
              (rw (slabs_total-slab_value grosses ss) (rw (sum-group_slabs grosses rs same) small)))
            (λ k. group_slabs_once k rs)
            (rw (length-replicate {A = ℕ} (length grosses) 0)
              (rw (← same) (group_slabs_in_range rs)))
            (slab_sum-zeros (length grosses) ss),
        sum-replicate_zero (length grosses),
      )

  -- Where tax is rounded once for each set of rates: over the lines, each of the four columns adds up
  -- to what `_slab_tax` gives for the slabs, nothing lost in spreading it back. (The lines come to
  -- less than 10^14 together, and no rate is above 100 %.)
  pub add_slabs_total :
      (mode : PricingMode)
      → let ss = group_slabs 0 rs [] in
        let c = add_slabs grosses mode ss (zero_columns (length grosses)) in
        (sum c.taxable ≡ slabs_total (λ s. (slab_tax (slab_value grosses s) s.0 mode).taxable) ss)
        × (sum c.cgst ≡ slabs_total (λ s. (slab_tax (slab_value grosses s) s.0 mode).cgst) ss)
        × (sum c.sgst ≡ slabs_total (λ s. (slab_tax (slab_value grosses s) s.0 mode).sgst) ss)
        × (sum c.igst ≡ slabs_total (λ s. (slab_tax (slab_value grosses s) s.0 mode).igst) ss)
  unfolding zero_columns
  add_slabs_total mode =
      let ss = group_slabs 0 rs [] in
      let c = zero_columns (length grosses) in
      (
        ap sum (add_slabs-taxable grosses mode ss c)
            ∙ sum-column_of_zeros (λ s. (slab_tax (slab_value grosses s) s.0 mode).taxable)
                (λ s h. (slab_tax-le (slab_value grosses s) s.0 mode h).0),
        ap sum (add_slabs-cgst grosses mode ss c)
            ∙ sum-column_of_zeros (λ s. (slab_tax (slab_value grosses s) s.0 mode).cgst)
                (λ s h. (slab_tax-le (slab_value grosses s) s.0 mode h).1),
        ap sum (add_slabs-sgst grosses mode ss c)
            ∙ sum-column_of_zeros (λ s. (slab_tax (slab_value grosses s) s.0 mode).sgst)
                (λ s h. (slab_tax-le (slab_value grosses s) s.0 mode h).2),
        ap sum (add_slabs-igst grosses mode ss c)
            ∙ sum-column_of_zeros (λ s. (slab_tax (slab_value grosses s) s.0 mode).igst)
                (λ s h. (slab_tax-le (slab_value grosses s) s.0 mode h).3),
      )

-- Exclusive pricing leaves each slab's value taxable.
slabs_total-exclusive :
    (grosses : List ℕ) (ss : Slabs)
    → slabs_total (λ s. (slab_tax (slab_value grosses s) s.0 exclusive).taxable) ss
      ≡ slabs_total (slab_value grosses) ss
slabs_total-exclusive grosses [] = refl
slabs_total-exclusive grosses ((r, ms) ∷ ss) =
    omega (arith, slab_tax-exclusive (sum (pick grosses ms)) r, slabs_total-exclusive grosses ss)

-- The whole value of the lines is taxable under exclusive pricing.
pub add_slabs-exclusive :
    (grosses : List ℕ) (rs : List Rates)
    → length rs ≡ length grosses
    → sum grosses < amount_bound
    → AllInRange rs
    → sum
        (add_slabs grosses exclusive (group_slabs 0 rs []) (zero_columns (length grosses))).taxable
      ≡ sum grosses
add_slabs-exclusive grosses rs same small rates =
    let ss = group_slabs 0 rs [] in
    (add_slabs_total grosses rs same small rates exclusive).0
    ∙ slabs_total-exclusive grosses ss
    ∙ slabs_total-slab_value grosses ss
    ∙ sum-group_slabs grosses rs same
