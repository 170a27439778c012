-- ===== src/Tax/Examples.antt =====
-- Invoices, allocations and roundings at concrete amounts.
use fast_api_e_commerce.Prelude.{ℕ, ◌+◌, ◌≤◌, ◌≡◌, refl, true, some, List, [], ◌∷◌, arith, sum, nth}
use fast_api_e_commerce.Tax.Allocate.{allocate}
use fast_api_e_commerce.Tax.Allocate.Shares.{sum-allocate}
use fast_api_e_commerce.Tax.Allocate.Fair.{allocate_fair}
use fast_api_e_commerce.Tax.Gst.{
  CalcLine, Rates, GstResult, taxable, exempt, inclusive, exclusive, taxable_with_goods,
  line_half_up, invoice_half_up,
}
use fast_api_e_commerce.Tax.States.{codes, resolve_state}
use fast_api_e_commerce.Tax.Invoice.{calculate, invoice}
use fast_api_e_commerce.Tax.Invoice.Balance.{calculate_shipping_kept, total_of}

abbrev thirds : List ℕ
thirds = 1 ∷ 1 ∷ 1 ∷ []

sum-allocate_example : sum (allocate 100 thirds) ≡ 100
sum-allocate_example = sum-allocate 100 thirds (omega arith) (omega arith)

allocate_fair_example :
    (33 ≤ nth 1 (allocate 100 thirds))
    × (nth 1 (allocate 100 thirds) ≤ 34)
    × (◌≡◌ {A = ℕ} 1 0 → nth 1 (allocate 100 thirds) ≡ 33)
allocate_fair_example =
    allocate_fair 100 thirds 1 (omega arith) (omega arith) (omega arith) (omega arith)

abbrev prices : List ℕ
prices = 19900 ∷ 4500 ∷ []

abbrev twelve : Rates
twelve = record { cgst = 6000; sgst = 6000; igst = 12000 }

abbrev twelve_within : Rates
twelve_within = record { cgst = 6000; sgst = 6000; igst = 0 }

abbrev lines : List CalcLine
lines =
    record { key = 0; value_paise = 19900; treatment = taxable; rates = twelve }
    ∷ record { key = 1; value_paise = 4500; treatment = exempt; rates = twelve }
    ∷ []

abbrev included_bill : GstResult
included_bill = invoice lines 5000 true inclusive taxable_with_goods invoice_half_up

abbrev added_bill : GstResult
added_bill = invoice lines 5000 true exclusive taxable_with_goods line_half_up

abbrev two_rates : List Rates
two_rates = twelve_within ∷ twelve_within ∷ []

calculate_shipping_kept_example :
    total_of (λ l. l.gross_paise) included_bill.lines + included_bill.shipping_untaxed_paise
    ≡ 24400 + 5000
unfolding calculate
calculate_shipping_kept_example =
    calculate_shipping_kept lines 5000 true inclusive taxable_with_goods invoice_half_up
      {r = included_bill} refl (omega arith) (omega arith) (omega arith)

kerala : resolve_state (some (codes "State of Kerala")) ≡ some (codes "32")
unfolding resolve_state
kerala = refl

kashmir : resolve_state (some (codes "J & K")) ≡ some (codes "01")
unfolding resolve_state
kashmir = refl
