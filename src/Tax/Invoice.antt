-- ===== src/Tax/Invoice.antt =====
-- `calculate` of app/modules/tax/gst_calc.py: the whole invoice.
pub mod Balance
use fast_api_e_commerce.Prelude.{
  ℕ, zero, suc, ◌+◌, Bool, true, false, ◌||◌, not, Option, none, some, List, [], ◌∷◌, ◌==◌,
  if◌then◌else◌, length, replicate, sum, zip_add, nth, ℤ, pos, ◌-ℤ◌, sum_ℤ, map,
}
use fast_api_e_commerce.Tax.Allocate.{allocate}
use fast_api_e_commerce.Tax.Gst.{
  CalcLine, LineTax, GstResult, Rates, PricingMode, exclusive, inclusive, unknown_mode,
  ShippingTreatment, not_taxed, taxable_with_goods, unknown_shipping, RoundingPolicy, line_half_up,
  invoice_half_up, unknown_policy, rates_of,
}
use fast_api_e_commerce.Tax.Policy.{Columns, line_columns, add_slabs, group_slabs, zero_columns}

-- The configuration test at the top: true where `calculate` raises ValueError.
abbrev unknown_config : PricingMode → ShippingTreatment → RoundingPolicy → Bool
unknown_config unknown_mode _ _ = true
unknown_config _ unknown_shipping _ = true
unknown_config _ _ unknown_policy = true
unknown_config _ _ _ = false

abbrev spreads_shipping : ShippingTreatment → ℕ → Bool
spreads_shipping taxable_with_goods shipping = not (shipping == 0)
spreads_shipping _ _ = false

unfoldable pub values_of : List CalcLine → List ℕ
values_of [] = []
values_of (l ∷ ls) = l.value_paise ∷ values_of ls

unfoldable pub all_rates : List CalcLine → Bool → List Rates
unfolding rates_of
all_rates [] intra_state = []
all_rates (l ∷ ls) intra_state = rates_of l intra_state ∷ all_rates ls intra_state

-- `shipped` and `untaxed_shipping`
unfoldable pub ship : List CalcLine → ℕ → ShippingTreatment → List ℕ × ℕ
unfolding values_of
ship lines shipping treatment =
    if spreads_shipping treatment shipping
    then (allocate shipping (values_of lines), 0)
    else (replicate (length lines) 0, shipping)

pub columns_of : RoundingPolicy → List ℕ → List Rates → PricingMode → Columns
columns_of line_half_up grosses rates mode = line_columns grosses rates mode
columns_of _ grosses rates mode =
    add_slabs grosses mode (group_slabs 0 rates []) (zero_columns (length grosses))

-- the last field of a line
abbrev round_off_of : PricingMode → ℕ → ℕ → ℕ → ℕ → ℕ → ℤ
round_off_of inclusive gross taxable cgst sgst igst =
    pos gross -ℤ pos taxable -ℤ pos cgst -ℤ pos sgst -ℤ pos igst
round_off_of _ gross taxable cgst sgst igst = pos 0

-- the entry of `per_line` for the line of index i
pub row : ℕ → CalcLine → List ℕ → List ℕ → Columns → PricingMode → LineTax
row i l shipped grosses c mode = record {
  key = l.key;
  shipping_paise = nth i shipped;
  gross_paise = nth i grosses;
  taxable_paise = nth i c.taxable;
  cgst_paise = nth i c.cgst;
  sgst_paise = nth i c.sgst;
  igst_paise = nth i c.igst;
  round_off_paise =
      round_off_of mode (nth i grosses) (nth i c.taxable) (nth i c.cgst) (nth i c.sgst)
        (nth i c.igst);
}

-- `per_line`, from the line of index i on
pub per_line : ℕ → List CalcLine → List ℕ → List ℕ → Columns → PricingMode → List LineTax
per_line i [] shipped grosses c mode = []
per_line i (l ∷ ls) shipped grosses c mode =
    row i l shipped grosses c mode ∷ per_line (suc i) ls shipped grosses c mode

pub round_offs : List LineTax → List ℤ
round_offs [] = []
round_offs (l ∷ ls) = l.round_off_paise ∷ round_offs ls

-- `tax_total if pricing_mode == "exclusive" else 0`, and the same for "inclusive"
abbrev added : PricingMode → ℕ → ℕ
added exclusive tax = tax
added _ tax = 0

abbrev included : PricingMode → ℕ → ℕ
included inclusive tax = tax
included _ tax = 0

-- What `calculate` does once its configuration is known.
unfoldable pub invoice :
    List CalcLine → ℕ → Bool → PricingMode → ShippingTreatment → RoundingPolicy → GstResult
unfolding ship columns_of per_line values_of all_rates round_offs
invoice lines shipping intra_state mode shipping_treatment policy =
    let (shipped, untaxed) = ship lines shipping shipping_treatment in
    let grosses = zip_add (values_of lines) shipped in
    let c = columns_of policy grosses (all_rates lines intra_state) mode in
    let rows = per_line 0 lines shipped grosses c mode in
    let tax_total = sum c.cgst + sum c.sgst + sum c.igst in
    record {
      lines = rows;
      shipping_untaxed_paise = untaxed;
      taxable_paise = sum c.taxable;
      cgst_paise = sum c.cgst;
      sgst_paise = sum c.sgst;
      igst_paise = sum c.igst;
      round_off_paise = sum_ℤ (round_offs rows);
      tax_paise = tax_total;
      tax_added_paise = added mode tax_total;
      tax_included_paise = included mode tax_total;
    }

-- `none` is the ValueError of an unknown configuration value.
unfoldable pub calculate :
    List CalcLine → ℕ → Bool → PricingMode → ShippingTreatment → RoundingPolicy → Option GstResult
unfolding invoice
calculate lines shipping intra_state mode shipping_treatment policy =
    if unknown_config mode shipping_treatment policy
    then none
    else some (invoice lines shipping intra_state mode shipping_treatment policy)
