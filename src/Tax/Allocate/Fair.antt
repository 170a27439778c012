-- ===== src/Tax/Allocate/Fair.antt =====
-- Single shares of `_allocate` against their exact parts.
mod Order
use fast_api_e_commerce.Prelude.{
  ℕ, zero, suc, ◌+◌, ◌-◌, ◌*◌, ◌/◌, ◌%◌, ◌≤◌, ◌<◌, ◌≡◌, ◌≢◌, ◌↔◌, ◌∙◌, refl, sym, ap, Bool, true,
  false, ◌||◌, List, [], ◌∷◌, arith, inl, inr, ltb, leb, ◌==◌, if◌then◌else◌, Bool-cases, length,
  replicate, sum, nth, nth-zeros,
}
use fast_api_e_commerce.Tax.Allocate.{
  Decimal, exact_shares, whole_parts, sort_from, bump, bump_first, slice_end, allocate,
}
use fast_api_e_commerce.Tax.Allocate.Decimals.{amount_bound, to_int-quotient, fraction-quotient}
use fast_api_e_commerce.Tax.Allocate.Shares.{
  AllLe, AllLe-sum, share_fits, leftover_le, whole_parts-le, slice_end_le, remainders,
  count_nonzero, length-exact_shares, length-whole_parts,
}
use Order.{occurs, occurs-sort_from, nth-bump_first, taken_inexact, Aligned, inexact_parts}
use native.Mathlib.Decide.{dec_lt}
use native.Mathlib.Nat.{
  zero-add, lt_of_mul-lt-mul_right, le_of_mul-le-mul_right, div-add-mod, mul-le-mul_right,
}

module _ (t w : ℕ) (w_pos : 0 < w) (t_small : t < amount_bound) (w_small : w < amount_bound) where
  -- the k-th whole part
  nth-whole_parts :
      (k : ℕ) (vs : List ℕ)
      → AllLe vs w
      → k < length vs
      → nth k (whole_parts (exact_shares t w vs)) ≡ t * nth k vs / w
  unfolding whole_parts exact_shares
  nth-whole_parts k [] a h = absurd (omega arith)
  nth-whole_parts zero (v ∷ vs) a h =
      to_int-quotient (t * v) w w_pos w_small (share_fits t w w_pos t_small w_small v a.0)
  nth-whole_parts (suc k) (v ∷ vs) a h = nth-whole_parts k vs a.1 (omega arith)

  count-inexact_parts :
      (vs : List ℕ)
      → AllLe vs w
      → count_nonzero (remainders t w vs) ≡ inexact_parts (exact_shares t w vs)
  unfolding exact_shares remainders
  count-inexact_parts [] a = refl
  count-inexact_parts (v ∷ vs) a = ground (
    arith,
    count-inexact_parts vs a.1,
    fraction-quotient (t * v) w w_pos w_small (share_fits t w w_pos t_small w_small v a.0),
  )

  exact_shares-Aligned :
      (rest : ℕ → ℕ) (i : ℕ) (vs : List ℕ)
      → AllLe vs w
      → ((k : ℕ) → k < length vs → rest (i + k) ≡ t * nth k vs % w)
      → Aligned rest i (exact_shares t w vs)
  unfolding exact_shares
  exact_shares-Aligned rest i [] a f = tt
  exact_shares-Aligned rest i (v ∷ vs) a f = (
    rw (here f)
        (fraction-quotient (t * v) w w_pos w_small (share_fits t w w_pos t_small w_small v a.0)),
    exact_shares-Aligned rest (suc i) vs a.1 (λ k h. rw (step i k) (f (suc k) (omega arith))),
  )
    where
      step : (m n : ℕ) → suc m + n ≡ m + suc n
      step m n = omega arith

      here :
          ((k : ℕ) → k < suc (length vs) → rest (i + k) ≡ t * nth k (v ∷ vs) % w)
          → rest i ≡ t * v % w
      here g = let e : i + 0 ≡ i = omega arith in rw e at (g 0 (omega arith))

module _ (t : ℕ) (ws : List ℕ) (k : ℕ) (w_pos : 0 < sum ws) (t_small : t < amount_bound)
    (w_small : sum ws < amount_bound) (k_in : k < length ws) where
  -- what the k-th line is handed of what is left
  handed : ℕ
  handed =
      occurs k (t - sum (whole_parts (exact_shares t (sum ws) ws)))
        (sort_from 0 (exact_shares t (sum ws) ws))

  handed-inexact : 0 < handed → t * nth k ws % sum ws ≢ 0
  unfolding handed
  handed-inexact o =
      let all = AllLe-sum ws (sum ws) (omega arith) in
      taken_inexact (λ j. t * nth j ws % sum ws) k
        (t - sum (whole_parts (exact_shares t (sum ws) ws))) (exact_shares t (sum ws) ws)
        (exact_shares-Aligned t (sum ws) w_pos t_small w_small (λ j. t * nth j ws % sum ws) 0 ws all
          (λ j h. rw (zero-add j)))
        (omega (
          arith,
          leftover_le t ws w_pos t_small w_small,
          count-inexact_parts t (sum ws) w_pos t_small w_small ws all,
        ))
        o

  nth-allocate : 0 < t → nth k (allocate t ws) ≡ t * nth k ws / sum ws + handed
  unfolding allocate handed
  nth-allocate t_pos =
      let es = exact_shares t (sum ws) ws in
      ground (
        arith,
        whole_parts-le t ws w_pos t_small w_small,
        nth-bump_first k (t - sum (whole_parts es)) (sort_from 0 es) (whole_parts es)
            (rw (length-whole_parts es) (rw (length-exact_shares t (sum ws) ws) k_in)),
        nth-whole_parts t (sum ws) w_pos t_small w_small k ws (AllLe-sum ws (sum ws) (omega arith))
            k_in,
      )

  handed-le-one : handed ≤ 1
  unfolding handed
  handed-le-one =
      occurs-sort_from k (t - sum (whole_parts (exact_shares t (sum ws) ws)))
        (exact_shares t (sum ws) ws)

  nth-allocate_zero : t ≡ 0 → nth k (allocate t ws) ≡ 0
  unfolding allocate
  nth-allocate_zero e = ground (arith, nth-zeros k (length ws))

  zero_part : t ≡ 0 → t * nth k ws / sum ws ≡ 0
  zero_part e = rw e (omega arith)

  -- For a positive sum of weights, with total and sum below 10^14: each share of `_allocate` is the
  -- line's exact part rounded down, or one more, and an exact part is left as it is.
  pub allocate_fair :
      (t * nth k ws / sum ws ≤ nth k (allocate t ws))
      × (nth k (allocate t ws) ≤ t * nth k ws / sum ws + 1)
      × (t * nth k ws % sum ws ≡ 0 → nth k (allocate t ws) ≡ t * nth k ws / sum ws)
  allocate_fair = elim (dec_lt 0 t) [
    | yes p ↦ grind (arith, nth-allocate p, handed-inexact, handed-le-one)
    | no z ↦ omega (arith, nth-allocate_zero (omega arith), zero_part (omega arith))
  ]

  -- With no more to share out than the weights come to, which is positive and below 10^14, no share is
  -- above its weight.
  pub allocate_within : t ≤ sum ws → nth k (allocate t ws) ≤ nth k ws
  allocate_within h = elim (dec_lt 0 (t * nth k ws % sum ws)) [
    | yes r ↦ omega (
      arith,
      allocate_fair,
      lt_of_mul-lt-mul_right (sum ws) {m = t * nth k ws / sum ws} {n = nth k ws}
          (omega (arith, div-add-mod (t * nth k ws) (sum ws), mul-le-mul_right (nth k ws) h)),
    )
    | no e ↦ omega (
      arith,
      allocate_fair.2 (omega arith),
      le_of_mul-le-mul_right {m = t * nth k ws / sum ws} {n = nth k ws} {k = sum ws}
          (omega (arith, div-add-mod (t * nth k ws) (sum ws), mul-le-mul_right (nth k ws) h)) w_pos,
    )
  ]
