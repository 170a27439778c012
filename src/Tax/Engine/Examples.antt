-- ===== src/Tax/Engine/Examples.antt =====
-- A tax master with one class of goods, asked for a supply within Kerala.
use fast_api_e_commerce.Prelude.{
  ℕ, ◌≡◌, ◌↔◌, ok, err, Result, refl, Option, none, some, [], ◌∷◌, pos, ◌-ℤ◌,
}
use fast_api_e_commerce.Tax.Gst.{
  GstResult, taxable, exclusive, taxable_with_goods, invoice_half_up, slab_tax,
}
use fast_api_e_commerce.Tax.Allocate.{allocate}
use fast_api_e_commerce.Tax.Policy.{add_slabs, group_slabs, zero_columns}
use fast_api_e_commerce.Tax.Invoice.{calculate}
use fast_api_e_commerce.Tax.States.{codes, resolve_state}
use fast_api_e_commerce.Tax.Engine.{
  Master, TaxLine, TaxRequest, TaxError, approved, evaluate_config, config_of, check_registration,
  check_line, check_rules, calculate_after, supply, calc_lines, evaluate_readiness, calculate_gst,
}
use fast_api_e_commerce.Tax.Engine.Ready.{
  AllReady, evaluate_readiness_iff, GstGrounds, calculate_gst_sound,
}

abbrev master : Master
master = record {
  classifications = record { id = 1; status = approved } ∷ [];
  rules =
      record {
        classification_id = 1;
        treatment = taxable;
        rates = record { cgst = 9000; sgst = 9000; igst = 18000 };
        effective_from = 19000;
        effective_to = none;
        status = approved;
      }
      ∷ [];
  registrations =
      record {
        id = 2;
        state_code = codes "32";
        valid_from = 18000;
        valid_to = none;
        status = approved;
      }
      ∷ [];
  settings =
      record {
        pricing_mode = exclusive;
        shipping_tax_treatment = taxable_with_goods;
        rounding_policy = invoice_half_up;
        registration_id = 2;
        effective_from = 19000;
        effective_to = some 30000;
        status = approved;
      }
      ∷ [];
}

abbrev line : Option ℕ → TaxLine
line c = record {
  product_id = 1;
  quantity = 2;
  unit_price_paise = 10000;
  classification_id = c;
  discount_paise = 1000;
}

abbrev request : TaxRequest
request = record {
  lines = line (some 1) ∷ [];
  subtotal_paise = 19000;
  shipping_paise = 5000;
  as_of = 20000;
  delivery_state = some (codes "State of Kerala");
  delivery_country = some (codes "IN");
}

evaluate_readiness_iff_example :
    (evaluate_readiness master (line none ∷ []) 20000 ≡ []) ↔ AllReady master 20000 (line none ∷ [])
evaluate_readiness_iff_example = evaluate_readiness_iff master (line none ∷ []) 20000

abbrev tax_of : Result TaxError GstResult → Option ℕ
tax_of (ok result) = some result.tax_paise
tax_of (err _) = none

abbrev value_of : Result TaxError GstResult → GstResult → GstResult
value_of (ok result) _ = result
value_of (err _) d = d

abbrev nothing : GstResult
nothing = record {
  lines = [];
  shipping_untaxed_paise = 0;
  taxable_paise = 0;
  cgst_paise = 0;
  sgst_paise = 0;
  igst_paise = 0;
  round_off_paise = pos 0;
  tax_paise = 0;
  tax_added_paise = 0;
  tax_included_paise = 0;
}

taxed : GstResult
taxed = value_of (calculate_gst master request) nothing

taxed_run :
    (calculate_gst master request ≡ ok taxed) × (taxed.tax_paise ≡ 4320) × (taxed.igst_paise ≡ 0)
unfolding taxed calculate_gst evaluate_config config_of check_registration evaluate_readiness
    check_line check_rules calculate_after supply resolve_state calc_lines calculate ◌-ℤ◌ add_slabs
    group_slabs allocate slab_tax zero_columns
taxed_run = (refl, refl, refl)

calculate_gst_sound_example : GstGrounds master request taxed
calculate_gst_sound_example = calculate_gst_sound master request taxed taxed_run.0
