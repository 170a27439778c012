-- ===== src/Tax/Gst.antt =====
-- The types of app/modules/tax/gst_calc.py and its arithmetic for one value (`_rates`, `_slab_tax`).
--
-- A rate is a natural number of thousandths of a percent (the columns are Numeric(6, 3)), so
-- `value * rate / 100` is value * rate / 100000. `Decimal` keeps 28 digits: for values below 10^14
-- these products are exact, and a quotient by 100 + rate is further from a half than 28 digits
-- round, so a quotient rounded half-up to the paisa is that of the exact fraction.
pub mod Slab
use fast_api_e_commerce.Prelude.{ℕ, ◌+◌, ◌*◌, ◌/◌, Bool, true, false, List, ◌==◌, if◌then◌else◌, ℤ}

pub data Treatment : Type 0 where
  taxable exempt nil_rated non_gst unknown_treatment : Treatment

-- The configuration strings; the last of each stands for any other text.
pub data PricingMode : Type 0 where
  exclusive inclusive unknown_mode : PricingMode

pub data ShippingTreatment : Type 0 where
  not_taxed taxable_with_goods unknown_shipping : ShippingTreatment

pub data RoundingPolicy : Type 0 where
  line_half_up invoice_half_up unknown_policy : RoundingPolicy

-- (cgst, sgst, igst), in thousandths of a percent
pub record Rates : Type 0 where
  pub cgst : ℕ
  pub sgst : ℕ
  pub igst : ℕ

pub record CalcLine : Type 0 where
  pub key : ℕ
  pub value_paise : ℕ
  pub treatment : Treatment
  pub rates : Rates

pub record LineTax : Type 0 where
  pub key : ℕ
  pub shipping_paise : ℕ
  pub gross_paise : ℕ
  pub taxable_paise : ℕ
  pub cgst_paise : ℕ
  pub sgst_paise : ℕ
  pub igst_paise : ℕ
  pub round_off_paise : ℤ

-- the property `LineTax.tax_paise`
abbrev pub tax_paise_of : LineTax → ℕ
tax_paise_of l = l.cgst_paise + l.sgst_paise + l.igst_paise

pub record GstResult : Type 0 where
  pub lines : List LineTax
  pub shipping_untaxed_paise : ℕ
  pub taxable_paise : ℕ
  pub cgst_paise : ℕ
  pub sgst_paise : ℕ
  pub igst_paise : ℕ
  pub round_off_paise : ℤ
  pub tax_paise : ℕ
  pub tax_added_paise : ℕ
  pub tax_included_paise : ℕ

-- `half_up(Decimal(n) / d)`
unfoldable pub half_up : ℕ → ℕ → ℕ
half_up n d = (2 * n + d) / (2 * d)

abbrev no_rates : Rates
no_rates = record { cgst = 0; sgst = 0; igst = 0 }

abbrev is_taxable : Treatment → Bool
is_taxable taxable = true
is_taxable _ = false

-- `_rates`
unfoldable pub rates_of : CalcLine → Bool → Rates
rates_of line intra_state =
    if is_taxable line.treatment
    then if intra_state
      then record { cgst = line.rates.cgst; sgst = line.rates.sgst; igst = 0 }
      else record { cgst = 0; sgst = 0; igst = line.rates.igst }
    else no_rates

-- the tuple (taxable, cgst, sgst, igst)
pub record Amounts : Type 0 where
  pub taxable : ℕ
  pub cgst : ℕ
  pub sgst : ℕ
  pub igst : ℕ

abbrev is_exclusive : PricingMode → Bool
is_exclusive exclusive = true
is_exclusive _ = false

abbrev taxed_at : ℕ → Rates → Amounts
unfolding half_up
taxed_at value r = record {
  taxable = value;
  cgst = half_up (value * r.cgst) 100000;
  sgst = half_up (value * r.sgst) 100000;
  igst = half_up (value * r.igst) 100000;
}

-- `_slab_tax`
unfoldable pub slab_tax : ℕ → Rates → PricingMode → Amounts
unfolding half_up
slab_tax value r mode =
    let total_rate = r.cgst + r.sgst + r.igst in
    if total_rate == 0
    then record { taxable = value; cgst = 0; sgst = 0; igst = 0 }
    else if is_exclusive mode
    then taxed_at value r
    else taxed_at (half_up (value * 100000) (100000 + total_rate)) r
