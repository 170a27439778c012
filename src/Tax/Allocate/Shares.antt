-- ===== src/Tax/Allocate/Shares.antt =====
-- The shares of `_allocate` together: their number and their sum.
use fast_api_e_commerce.Prelude.{
  ℕ, zero, suc, ◌+◌, ◌-◌, ◌*◌, ◌%◌, ◌≤◌, ◌<◌, ◌≡◌, ◌∙◌, refl, ap, List, [], ◌∷◌, arith, ◌==◌,
  if◌then◌else◌, length, sum, length-replicate, sum-replicate_zero,
}
use fast_api_e_commerce.Tax.Allocate.{
  Decimal, insert, sort_from, bump, bump_first, slice_end, exact_shares, whole_parts, allocate,
}
use fast_api_e_commerce.Tax.Allocate.Decimals.{amount_bound, to_int-quotient}
use native.Mathlib.Nat.{
  div-add-mod, mod-lt, mul-le-mul_left, le_of_mul-le-mul_right, mul-lt-mul_of_pos_right,
}

-- Every index of the order is one of the n parts.
abbrev pub AllBelow : ℕ → List (ℕ × Decimal) → Type 0
AllBelow n [] = Unit
AllBelow n ((i, _) ∷ xs) = (i < n) × AllBelow n xs

insert-AllBelow :
    (n i : ℕ) (e : Decimal) (xs : List (ℕ × Decimal))
    → i < n
    → AllBelow n xs
    → AllBelow n (insert (i, e) xs)
unfolding insert
insert-AllBelow n i e [] h a = (h, tt)
insert-AllBelow n i e ((j, f) ∷ xs) h a = ground (arith, insert-AllBelow n i e xs h a.1)

sort_from-AllBelow : (i : ℕ) (es : List Decimal) → AllBelow (i + length es) (sort_from i es)
unfolding sort_from
sort_from-AllBelow i [] = tt
sort_from-AllBelow i (e ∷ es) =
    insert-AllBelow (i + suc (length es)) i e (sort_from (suc i) es) (omega arith)
      (rw (shift i (length es)) (sort_from-AllBelow (suc i) es))
  where
    shift : (a b : ℕ) → a + suc b ≡ suc a + b
    shift a b = omega arith

indices-AllBelow : (es : List Decimal) → AllBelow (length es) (sort_from 0 es)
indices-AllBelow es =
    let e : 0 + length es ≡ length es = omega arith in rw e at (sort_from-AllBelow 0 es)

pub length-insert :
    (x : ℕ × Decimal) (xs : List (ℕ × Decimal)) → length (insert x xs) ≡ suc (length xs)
unfolding insert
length-insert x [] = refl
length-insert x (y ∷ ys) = ground (arith, length-insert x ys)

pub length-sort_from : (i : ℕ) (es : List Decimal) → length (sort_from i es) ≡ length es
unfolding sort_from
length-sort_from i [] = refl
length-sort_from i (e ∷ es) =
    omega (arith, length-insert (i, e) (sort_from (suc i) es), length-sort_from (suc i) es)

sum-bump : (i : ℕ) (ps : List ℕ) → i < length ps → sum (bump i ps) ≡ suc (sum ps)
unfolding bump
sum-bump i [] h = absurd (omega arith)
sum-bump zero (p ∷ ps) h = omega arith
sum-bump (suc i) (p ∷ ps) h = omega (arith, sum-bump i ps (omega arith))

length-bump : (i : ℕ) (ps : List ℕ) → length (bump i ps) ≡ length ps
unfolding bump
length-bump i [] = refl
length-bump zero (p ∷ ps) = refl
length-bump (suc i) (p ∷ ps) = ap suc (length-bump i ps)

pub length-bump_first :
    (n : ℕ) (order : List (ℕ × Decimal)) (ps : List ℕ) → length (bump_first n order ps) ≡ length ps
unfolding bump_first
length-bump_first zero order ps = refl
length-bump_first (suc n) [] ps = refl
length-bump_first (suc n) ((i, e) ∷ order) ps =
    length-bump_first n order (bump i ps) ∙ length-bump i ps

sum-bump_first :
    (n : ℕ) (order : List (ℕ × Decimal)) (ps : List ℕ)
    → AllBelow (length ps) order
    → n ≤ length order
    → sum (bump_first n order ps) ≡ sum ps + n
unfolding bump_first
sum-bump_first zero order ps a h = omega arith
sum-bump_first (suc n) [] ps a h = absurd (omega arith)
sum-bump_first (suc n) ((i, e) ∷ order) ps a h = omega (
  arith,
  sum-bump_first n order (bump i ps) (rw (length-bump i ps) a.1) (omega arith),
  sum-bump i ps a.0,
)

pub length-exact_shares : (t w : ℕ) (ws : List ℕ) → length (exact_shares t w ws) ≡ length ws
unfolding exact_shares
length-exact_shares t w [] = refl
length-exact_shares t w (v ∷ vs) = ap suc (length-exact_shares t w vs)

pub length-whole_parts : (es : List Decimal) → length (whole_parts es) ≡ length es
unfolding whole_parts
length-whole_parts [] = refl
length-whole_parts (e ∷ es) = ap suc (length-whole_parts es)

-- How many of the exact shares have a fraction.
abbrev pub count_nonzero : List ℕ → ℕ
count_nonzero [] = 0
count_nonzero (r ∷ rs) = if r == 0 then count_nonzero rs else suc (count_nonzero rs)

-- The remainders of the divisions.
unfoldable pub remainders : ℕ → ℕ → List ℕ → List ℕ
remainders t w [] = []
remainders t w (v ∷ vs) = t * v % w ∷ remainders t w vs

abbrev pub AllLe : List ℕ → ℕ → Type 0
AllLe [] w = Unit
AllLe (v ∷ vs) w = (v ≤ w) × AllLe vs w

pub AllLe-sum : (ws : List ℕ) (b : ℕ) → sum ws ≤ b → AllLe ws b
AllLe-sum [] b h = tt
AllLe-sum (w ∷ ws) b h = (omega arith, AllLe-sum ws b (omega arith))

module _ (t w : ℕ) (w_pos : 0 < w) (t_small : t < amount_bound) (w_small : w < amount_bound) where
  pub share_fits : (v : ℕ) → v ≤ w → t * v < amount_bound * w
  share_fits v h = omega (arith, mul-le-mul_left t h, mul-lt-mul_of_pos_right t_small w_pos)

  -- whole parts and remainders account for the whole product
  accounted :
      (vs : List ℕ)
      → AllLe vs w
      → w * sum (whole_parts (exact_shares t w vs)) + sum (remainders t w vs) ≡ t * sum vs
  unfolding whole_parts exact_shares remainders
  accounted [] h = omega arith
  accounted (v ∷ vs) h = omega (
    arith,
    accounted vs h.1,
    to_int-quotient (t * v) w w_pos w_small (share_fits v h.0),
    ap (λ (k : ℕ). w * k) (to_int-quotient (t * v) w w_pos w_small (share_fits v h.0)),
    div-add-mod (t * v) w,
  )

  sum-remainders : (vs : List ℕ) → sum (remainders t w vs) ≤ w * count_nonzero (remainders t w vs)
  unfolding remainders
  sum-remainders [] = omega arith
  sum-remainders (v ∷ vs) = grind (arith, sum-remainders vs, mod-lt (t * v) w_pos)

  count-remainders : (vs : List ℕ) → count_nonzero (remainders t w vs) ≤ length vs
  unfolding remainders
  count-remainders [] = omega arith
  count-remainders (v ∷ vs) = ground (arith, count-remainders vs)

pub slice_end_le : (t given n : ℕ) → given ≤ t → slice_end t given n ≡ t - given
unfolding slice_end
slice_end_le t given n h = ground arith

-- What is left after the whole parts is not negative, and is at most the number of inexact shares.
module _ (t : ℕ) (ws : List ℕ) (w_pos : 0 < sum ws) (t_small : t < amount_bound)
    (w_small : sum ws < amount_bound) where
  pub whole_parts-le : sum (whole_parts (exact_shares t (sum ws) ws)) ≤ t
  whole_parts-le =
      le_of_mul-le-mul_right {k = sum ws}
        (omega (
          arith,
          accounted t (sum ws) w_pos t_small w_small ws (AllLe-sum ws (sum ws) (omega arith)),
        ))
        w_pos

  pub leftover_le :
      t ≤ sum (whole_parts (exact_shares t (sum ws) ws)) + count_nonzero (remainders t (sum ws) ws)
  leftover_le =
      le_of_mul-le-mul_right {k = sum ws}
        (omega (
          arith,
          accounted t (sum ws) w_pos t_small w_small ws (AllLe-sum ws (sum ws) (omega arith)),
          sum-remainders t (sum ws) w_pos t_small w_small ws,
        ))
        w_pos

  sum-shares :
      sum (
        bump_first
          (slice_end t (sum (whole_parts (exact_shares t (sum ws) ws))) (length ws))
          (sort_from 0 (exact_shares t (sum ws) ws))
          (whole_parts (exact_shares t (sum ws) ws)))
      ≡ t
  sum-shares =
      let es = exact_shares t (sum ws) ws in
      rw (slice_end_le t (sum (whole_parts es)) (length ws) whole_parts-le) (
        omega (
          arith,
          whole_parts-le,
          sum-bump_first (t - sum (whole_parts es)) (sort_from 0 es) (whole_parts es)
              (rw (length-whole_parts es) (indices-AllBelow es))
              (omega (
                arith,
                leftover_le,
                length-sort_from 0 es,
                length-exact_shares t (sum ws) ws,
                count-remainders t (sum ws) w_pos t_small w_small ws,
              )),
        ))

-- One share to each weight.
pub length-allocate : (total : ℕ) (ws : List ℕ) → length (allocate total ws) ≡ length ws
unfolding allocate
length-allocate total ws =
    let es = exact_shares total (sum ws) ws in
    ground (
      arith,
      length-replicate {A = ℕ} (length ws) 0,
      length-exact_shares total (sum ws) ws,
      length-whole_parts es,
      length-bump_first (slice_end total (sum (whole_parts es)) (length ws)) (sort_from 0 es)
          (whole_parts es),
    )

-- With the total and the sum of the weights below 10^14, the shares add up to the total, unless every
-- weight is 0: then nothing is shared out.
pub sum-allocate :
    (total : ℕ) (ws : List ℕ)
    → total < amount_bound
    → sum ws < amount_bound
    → sum (allocate total ws) ≡ (if sum ws == 0 then 0 else total)
unfolding allocate
sum-allocate total ws t_small w_small = ground (
  arith,
  sum-replicate_zero (length ws),
  λ (h : 0 < sum ws). sum-shares total ws h t_small w_small,
)
