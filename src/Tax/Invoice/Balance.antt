-- ===== src/Tax/Invoice/Balance.antt =====
-- `calculate`: its totals, and the balance between what the customer pays for the goods and their
-- shipping, what is taxable, the tax, and the round-off.
mod Rows
pub use Rows.{total_of}
use fast_api_e_commerce.Prelude.{
  ℕ, zero, suc, ◌+◌, ◌≤◌, ◌<◌, ◌≡◌, ◌∙◌, refl, sym, Bool, true, false, List, [], ◌∷◌, arith, Option,
  some, none, inl, inr, length, replicate, sum, nth, ℤ, pos, ◌-ℤ◌, int_laws, zip_add, sum-zip_add,
  length-zip_add, length-replicate, sum-replicate_zero, Bool-cases, if◌then◌else◌, ◌==◌,
}
use mathlib.Core.Path.{subst}
use mathlib.Core.Option.{some-injective}
use fast_api_e_commerce.Tax.Allocate.{allocate}
use fast_api_e_commerce.Tax.Allocate.Decimals.{amount_bound}
use fast_api_e_commerce.Tax.Allocate.Shares.{sum-allocate, length-allocate}
use fast_api_e_commerce.Tax.Gst.{
  CalcLine, LineTax, GstResult, PricingMode, exclusive, ShippingTreatment, RoundingPolicy,
}
use fast_api_e_commerce.Tax.Policy.{Columns}
use fast_api_e_commerce.Tax.Invoice.{
  calculate, invoice, values_of, all_rates, ship, columns_of, row, per_line, spreads_shipping,
  unknown_config,
}
use fast_api_e_commerce.Tax.Policy.Totals.{AllInRange}
use Rows.{
  paid, columns_of-exclusive, total_of-field, HasLength, columns_of-HasLength, length-all_rates,
  length-values_of, sum_ℤ-round_offs_exclusive,
}

-- A result is that of the known configuration.
calculate-some :
    (ls : List CalcLine) (shipping : ℕ) (intra : Bool) (mode : PricingMode) (st : ShippingTreatment)
    (policy : RoundingPolicy) {r : GstResult}
    → calculate ls shipping intra mode st policy ≡ some r
    → invoice ls shipping intra mode st policy ≡ r
unfolding calculate
calculate-some ls shipping intra mode st policy h =
    elim (Bool-cases (unknown_config mode st policy)) [
      | inl t ↦ cc
      | inr t ↦ some-injective _ _ (rw t at h)
    ]

-- what `ship` gives, one part to each line
length-ship :
    (ls : List CalcLine) (shipping : ℕ) (st : ShippingTreatment)
    → length (ship ls shipping st).0 ≡ length ls
unfolding ship
length-ship ls shipping st = ground (
  arith,
  length-allocate shipping (values_of ls),
  length-values_of ls,
  length-replicate {A = ℕ} (length ls) 0,
)

-- The shipping charge is on the lines or left untaxed, and none of it is lost.
sum-ship :
    (ls : List CalcLine) (shipping : ℕ) (st : ShippingTreatment)
    → 0 < sum (values_of ls)
    → sum (values_of ls) < amount_bound
    → shipping < amount_bound
    → sum (ship ls shipping st).0 + (ship ls shipping st).1 ≡ shipping
unfolding ship
sum-ship ls shipping st v_pos v_small s_small = elim (Bool-cases (spreads_shipping st shipping)) [
  | inl t ↦ rw t (ground (arith, sum-allocate shipping (values_of ls) s_small v_small))
  | inr t ↦ rw t (omega (arith, sum-replicate_zero (length ls)))
]

module _ (ls : List CalcLine) (shipping : ℕ) (intra : Bool) (mode : PricingMode)
    (st : ShippingTreatment) (policy : RoundingPolicy) where
  abbrev grosses : List ℕ
  grosses = zip_add (values_of ls) (ship ls shipping st).0

  length-grosses : length grosses ≡ length ls
  length-grosses =
      length-zip_add (values_of ls) (ship ls shipping st).0
        (length-values_of ls ∙ sym (length-ship ls shipping st))
      ∙ length-values_of ls

  abbrev cols : Columns
  cols = columns_of policy grosses (all_rates ls intra) mode

  cols-HasLength : HasLength (length ls) cols
  cols-HasLength =
      subst (λ n. HasLength n cols) length-grosses
        (columns_of-HasLength policy grosses (all_rates ls intra) mode
          (length-all_rates ls intra ∙ sym length-grosses))

  abbrev rows : List LineTax
  rows = per_line 0 ls (ship ls shipping st).0 grosses cols mode

  -- each column of the lines adds up to its list
  rows_total :
      (total_of (λ l. l.gross_paise) rows ≡ sum grosses)
      × (total_of (λ l. l.taxable_paise) rows ≡ sum cols.taxable)
      × (total_of (λ l. l.cgst_paise) rows ≡ sum cols.cgst)
      × (total_of (λ l. l.sgst_paise) rows ≡ sum cols.sgst)
      × (total_of (λ l. l.igst_paise) rows ≡ sum cols.igst)
  unfolding row
  rows_total =
      let n = cols-HasLength in
      let s = (ship ls shipping st).0 in
      (
        total_of-field s grosses cols mode (λ l. l.gross_paise) grosses ls (λ k l. refl)
            length-grosses,
        total_of-field s grosses cols mode (λ l. l.taxable_paise) cols.taxable ls (λ k l. refl) n.0,
        total_of-field s grosses cols mode (λ l. l.cgst_paise) cols.cgst ls (λ k l. refl) n.1,
        total_of-field s grosses cols mode (λ l. l.sgst_paise) cols.sgst ls (λ k l. refl) n.2,
        total_of-field s grosses cols mode (λ l. l.igst_paise) cols.igst ls (λ k l. refl) n.3,
      )

  -- Where the goods have a value (and it and the shipping charge are below 10^14), the lines' gross
  -- values and the untaxed shipping come to the goods and the shipping charge.
  pub calculate_shipping_kept :
      {r : GstResult}
      → calculate ls shipping intra mode st policy ≡ some r
      → 0 < sum (values_of ls)
      → sum (values_of ls) < amount_bound
      → shipping < amount_bound
      → total_of (λ l. l.gross_paise) r.lines + r.shipping_untaxed_paise
        ≡ sum (values_of ls) + shipping
  unfolding invoice
  calculate_shipping_kept h v_pos v_small s_small =
      rw (← calculate-some ls shipping intra mode st policy h) (
        omega (
          arith,
          rows_total.0,
          sum-zip_add (values_of ls) (ship ls shipping st).0
              (length-values_of ls ∙ sym (length-ship ls shipping st)),
          sum-ship ls shipping st v_pos v_small s_small,
        ))

module _ (ls : List CalcLine) (shipping : ℕ) (intra : Bool) (st : ShippingTreatment)
    (policy : RoundingPolicy) {r : GstResult} where
  -- Exclusive pricing, rates of at most 100 % and lines below 10^14 in all: the whole of the lines is
  -- taxable under either rounding, nothing is rounded off, and all the tax is added.
  pub calculate_exclusive :
      calculate ls shipping intra exclusive st policy ≡ some r
      → sum (zip_add (values_of ls) (ship ls shipping st).0) < amount_bound
      → AllInRange (all_rates ls intra)
      → (r.taxable_paise ≡ total_of (λ l. l.gross_paise) r.lines)
        × (r.round_off_paise ≡ pos 0)
        × (r.tax_added_paise ≡ r.tax_paise)
        × (r.tax_included_paise ≡ 0)
  unfolding invoice
  calculate_exclusive h small rates =
      rw (← calculate-some ls shipping intra exclusive st policy h) (
        columns_of-exclusive policy (grosses ls shipping intra exclusive st policy)
              (all_rates ls intra)
              (length-all_rates ls intra
                ∙ sym (length-grosses ls shipping intra exclusive st policy))
              small rates
            ∙ sym (rows_total ls shipping intra exclusive st policy).0,
        sum_ℤ-round_offs_exclusive 0 ls (ship ls shipping st).0
            (grosses ls shipping intra exclusive st policy)
            (cols ls shipping intra exclusive st policy),
        refl,
        refl,
      )
