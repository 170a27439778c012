-- ===== src/Tax/Allocate/Decimals.antt =====
-- What 28 digits are enough for: a quotient below 10^14 by a divisor below 10^14 has its true whole
-- part, and a fraction that is zero exactly when the division leaves no remainder.
use fast_api_e_commerce.Prelude.{
  ℕ, zero, suc, ◌+◌, ◌*◌, ◌/◌, ◌%◌, ◌^◌, ◌≤◌, ◌<◌, ◌≡◌, ◌↔◌, arith, ap,
}
use fast_api_e_commerce.Tax.Allocate.{places_of, half_even, quotient, to_int, fraction}
use native.Mathlib.Decide.{dec_le, dec_lt}
use native.Mathlib.Nat.{
  div-add-mod', mod-lt, mul-le-mul_right, pow-suc, pow-le-pow_right, mul-le-mul_left,
  div-eq_of_lt-le, div-add-mod,
}

room_step : (n p b : ℕ) → 1 ≤ p → n * (p * 10) < b → (n * 10 < b) × (n * 10 * p < b)
room_step n p b h r = grind (arith, mul-le-mul_left (n * 10) h)

-- Room for k more digits means that at least k are kept.
le-places_of : (k fuel n d : ℕ) → k ≤ fuel → n * 10 ^ k < 10 ^ 28 * d → k ≤ places_of fuel n d
unfolding places_of
le-places_of zero fuel n d le h = omega arith
le-places_of (suc k) zero n d le h = absurd (omega arith)
le-places_of (suc k) (suc fuel) n d le h =
    let r =
      room_step n (10 ^ k) (10 ^ 28 * d)
        (pow-le-pow_right {n = 10} (omega arith) {i = 0} {j = k} (omega arith)) (rw pow-suc at h) in
    ground (arith, r.0, le-places_of k fuel (n * 10) d (omega arith) r.1)

-- The rounded quotient is within half a unit of the true one.
half_even_bounds :
    (n d : ℕ)
    → 0 < d
    → (2 * (half_even n d * d) ≤ 2 * n + d) × (2 * n ≤ 2 * (half_even n d * d) + d)
unfolding half_even
half_even_bounds n d h = grind (arith, div-add-mod n d)

-- A value c within half a unit of n * p / d, for a p above half of d: whole part and fraction.
module _ (n d p c : ℕ) (d_pos : 0 < d) (fine : d < 2 * p) (low : 2 * (c * d) ≤ 2 * (n * p) + d)
    (high : 2 * (n * p) ≤ 2 * (c * d) + d) where
  scaled : n * p ≡ n / d * p * d + n % d * p
  scaled = grind (arith, ap (λ (t : ℕ). t * p) (div-add-mod n d))

  whole_low : n / d * p ≤ c
  whole_low = elim (dec_le (n / d * p) c) [
    | yes h ↦ h
    | no h ↦
        absurd (omega (arith, scaled, mul-le-mul_right {m = suc c} {n = n / d * p} d (omega arith)))
  ]

  whole_high : c < (n / d + 1) * p
  whole_high = elim (dec_lt c ((n / d + 1) * p)) [
    | yes h ↦ h
    | no h ↦ absurd (
        omega (
          arith,
          scaled,
          mod-lt n d_pos,
          mul-le-mul_right {m = (n / d + 1) * p} {n = c} d (omega arith),
          mul-le-mul_right {m = suc (n % d)} {n = d} p (mod-lt n d_pos),
        ))
  ]

  exact_fraction : n % d ≡ 0 → c ≤ n / d * p
  exact_fraction e = elim (dec_le c (n / d * p)) [
    | yes h ↦ h
    | no h ↦ absurd (
        omega (
          arith,
          scaled,
          ap (λ (t : ℕ). t * p) e,
          mul-le-mul_right {m = suc (n / d * p)} {n = c} d (omega arith),
        ))
  ]

  inexact_fraction : 0 < n % d → n / d * p < c
  inexact_fraction e = elim (dec_lt (n / d * p) c) [
    | yes h ↦ h
    | no h ↦ absurd (
        omega (
          arith,
          scaled,
          mul-le-mul_right {m = 1} {n = n % d} p e,
          mul-le-mul_right {m = c} {n = n / d * p} d (omega arith),
        ))
  ]

  whole_lem : c / p ≡ n / d
  whole_lem = div-eq_of_lt-le p whole_low whole_high

  fraction_lem : (c % p ≡ 0) ↔ (n % d ≡ 0)
  fraction_lem = (
    λ e. elim (dec_lt 0 (n % d)) [
      | yes h ↦
          absurd
            (omega (arith, inexact_fraction h, div-add-mod' c p, ap (λ (t : ℕ). t * p) whole_lem))
      | no h ↦ omega arith
    ],
    λ e.
        omega
          (arith, exact_fraction e, whole_low, div-add-mod' c p, ap (λ (t : ℕ). t * p) whole_lem),
  )

-- Amounts below this are far above what the integer columns of the database hold.
abbrev pub amount_bound : ℕ
amount_bound = 10 ^ 14

module _ (n d : ℕ) (d_pos : 0 < d) (small : d < amount_bound) (fits : n < amount_bound * d) where
  fourteen_places : 10 ^ 14 ≤ 10 ^ places_of 56 n d
  fourteen_places =
      pow-le-pow_right {n = 10} (omega arith) (le-places_of 14 56 n d (omega arith) (omega arith))

  -- The parts that `_allocate` takes of a quotient are the whole part and the remainder of the division.
  pub to_int-quotient : to_int (quotient n d) ≡ n / d
  unfolding to_int quotient
  to_int-quotient =
      whole_lem n d _ _ d_pos (omega (arith, fourteen_places))
        (half_even_bounds (n * 10 ^ places_of 56 n d) d d_pos).0
        (half_even_bounds (n * 10 ^ places_of 56 n d) d d_pos).1

  pub fraction-quotient : (fraction (quotient n d) ≡ 0) ↔ (n % d ≡ 0)
  unfolding fraction quotient
  fraction-quotient =
      fraction_lem n d _ _ d_pos (omega (arith, fourteen_places))
        (half_even_bounds (n * 10 ^ places_of 56 n d) d d_pos).0
        (half_even_bounds (n * 10 ^ places_of 56 n d) d d_pos).1
