-- ===== src/Tax/Gst/Slab.antt =====
-- `_slab_tax`: one value at one set of rates.
use fast_api_e_commerce.Prelude.{ℕ, suc, ◌+◌, ◌*◌, ◌≤◌, ◌<◌, ◌≡◌, arith}
use fast_api_e_commerce.Tax.Gst.{Rates, PricingMode, exclusive, inclusive, half_up, slab_tax}
use native.Mathlib.Decide.{dec_le}
use native.Mathlib.Nat.{mul-le-mul_left, mul-le-mul_right, div-add-mod, mod-lt}

-- Rounding half-up: within half a unit of n / d.
pub half_up_bounds :
    (n d : ℕ) → 0 < d → (2 * (half_up n d * d) ≤ 2 * n + d) × (2 * n < 2 * (half_up n d * d) + d)
unfolding half_up
half_up_bounds n d h =
    grind (arith, div-add-mod (2 * n + d) (2 * d), mod-lt (2 * n + d) {m = 2 * d} (omega arith))

-- Inclusive pricing, under two tax components and a total rate below 100 %: what is taxable and the
-- tax on it, each rounded to the paisa on its own, come to the value but for at most one paisa.
pub slab_tax-inclusive_close :
    (value : ℕ) (r : Rates)
    → r.igst ≡ 0
    → r.cgst + r.sgst < 100000
    → let t = slab_tax value r inclusive in
      (t.taxable + t.cgst + t.sgst + t.igst ≤ value + 1)
      × (value ≤ t.taxable + t.cgst + t.sgst + t.igst + 1)
unfolding slab_tax
slab_tax-inclusive_close value r no_igst rate =
    let total = r.cgst + r.sgst + r.igst in
    let t = half_up (value * 100000) (100000 + total) in
    ground (
      arith,
      half_up_bounds (value * 100000) (100000 + total) (omega arith),
      half_up_bounds (t * r.cgst) 100000 (omega arith),
      half_up_bounds (t * r.sgst) 100000 (omega arith),
      half_up_bounds (t * r.igst) 100000 (omega arith),
    )

-- A rounded share of at most a whole is at most the whole.
pub half_up-le : (value r d : ℕ) → 0 < d → r ≤ d → half_up (value * r) d ≤ value
half_up-le value r d d_pos h = elim (dec_le (half_up (value * r) d) value) [
  | yes le ↦ le
  | no gt ↦ absurd (
      omega (
        arith,
        half_up_bounds (value * r) d d_pos,
        mul-le-mul_left value h,
        mul-le-mul_right {m = suc value} {n = half_up (value * r) d} d (omega arith),
      ))
]

-- No rate above 100 %.
abbrev pub RatesInRange : Rates → Type 0
RatesInRange r = (r.cgst ≤ 100000) × (r.sgst ≤ 100000) × (r.igst ≤ 100000)

-- What is taxable and each tax on it are at most the value.
pub slab_tax-le :
    (value : ℕ) (r : Rates) (mode : PricingMode)
    → RatesInRange r
    → let t = slab_tax value r mode in
      (t.taxable ≤ value) × (t.cgst ≤ value) × (t.sgst ≤ value) × (t.igst ≤ value)
unfolding slab_tax
slab_tax-le value r mode (hc, hs, hi) =
    let t = half_up (value * 100000) (100000 + (r.cgst + r.sgst + r.igst)) in
    ground (
      arith,
      half_up-le value r.cgst 100000 (omega arith) hc,
      half_up-le value r.sgst 100000 (omega arith) hs,
      half_up-le value r.igst 100000 (omega arith) hi,
      half_up-le value 100000 (100000 + (r.cgst + r.sgst + r.igst)) (omega arith) (omega arith),
      half_up-le t r.cgst 100000 (omega arith) hc,
      half_up-le t r.sgst 100000 (omega arith) hs,
      half_up-le t r.igst 100000 (omega arith) hi,
    )

-- Exclusive pricing: the whole value is taxable.
pub slab_tax-exclusive : (value : ℕ) (r : Rates) → (slab_tax value r exclusive).taxable ≡ value
unfolding slab_tax
slab_tax-exclusive value r = ground arith
