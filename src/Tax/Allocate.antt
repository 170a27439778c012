-- ===== src/Tax/Allocate.antt =====
-- `_allocate` of app/modules/tax/gst_calc.py: whole paise spread over weights by largest remainder.
--
-- `Decimal` division is Python's: 28 significant digits, rounded half to even. A quotient is kept as
-- a coefficient and the number of digits after its point. (A product of two amounts below 10^14 has
-- at most 28 digits, so it is exact, and so is the subtraction of a quotient's own whole part.)
pub mod Decimals
pub mod Shares
pub mod Fair
use fast_api_e_commerce.Prelude.{
  ℕ, zero, suc, ◌+◌, ◌-◌, ◌*◌, ◌/◌, ◌%◌, ◌^◌, Bool, true, false, ◌&&◌, ◌||◌, List, [], ◌∷◌, map,
  ltb, leb, ◌==◌, if◌then◌else◌, length, replicate, sum,
}

pub record Decimal : Type 0 where
  pub coefficient : ℕ
  pub places : ℕ

-- How many digits after the point leave 28 significant ones in n / d, at most `fuel`.
-- (For a divisor below 10^28 at most 56 are ever wanted.)
pub places_of : ℕ → ℕ → ℕ → ℕ
places_of zero n d = 0
places_of (suc fuel) n d = elim (ltb (n * 10) (10 ^ 28 * d)) [
  | true ↦ suc (places_of fuel (n * 10) d)
  | false ↦ 0
]

pub half_even : ℕ → ℕ → ℕ
half_even n d =
    if ltb (2 * (n % d)) d
    then n / d
    else if ltb d (2 * (n % d))
    then n / d + 1
    else if n / d % 2 == 0
    then n / d
    else n / d + 1

-- `Decimal(n) / d`
pub quotient : ℕ → ℕ → Decimal
unfolding half_even places_of
quotient n d =
    let s = places_of 56 n d in record { coefficient = half_even (n * 10 ^ s) d; places = s }

-- `int(e)`, for a quotient that is not negative
pub to_int : Decimal → ℕ
to_int e = e.coefficient / 10 ^ e.places

-- `e - int(e)`, at the same number of places
pub fraction : Decimal → ℕ
fraction e = e.coefficient % 10 ^ e.places

-- the sort key `(-(exact[i] - parts[i]), i)`: an earlier entry has the larger fraction
pub before : ℕ × Decimal → ℕ × Decimal → Bool
unfolding fraction
before (i, a) (j, b) =
    let x = fraction a * 10 ^ b.places in
    let y = fraction b * 10 ^ a.places in ltb y x || (x == y && ltb i j)

pub insert : ℕ × Decimal → List (ℕ × Decimal) → List (ℕ × Decimal)
unfolding before
insert x [] = x ∷ []
insert x (y ∷ ys) = if before x y then x ∷ y ∷ ys else y ∷ insert x ys

-- `sorted(range(len(weights)), key=...)`, each index with its quotient
pub sort_from : ℕ → List Decimal → List (ℕ × Decimal)
unfolding insert
sort_from i [] = []
sort_from i (e ∷ es) = insert (i, e) (sort_from (suc i) es)

-- `parts[i] += 1`
pub bump : ℕ → List ℕ → List ℕ
bump i [] = []
bump zero (p ∷ ps) = suc p ∷ ps
bump (suc i) (p ∷ ps) = p ∷ bump i ps

-- `for i in order[:leftover]: parts[i] += 1`
pub bump_first : ℕ → List (ℕ × Decimal) → List ℕ → List ℕ
unfolding bump
bump_first zero order parts = parts
bump_first (suc n) [] parts = parts
bump_first (suc n) ((i, _) ∷ order) parts = bump_first n order (bump i parts)

-- The end of the slice `order[:leftover]`: a negative one counts from the end of the list.
pub slice_end : ℕ → ℕ → ℕ → ℕ
slice_end total given n = if leb given total then total - given else n - (given - total)

-- `exact = [Decimal(total) * w / weight_sum for w in weights]`
pub exact_shares : ℕ → ℕ → List ℕ → List Decimal
unfolding quotient
exact_shares total weight_sum [] = []
exact_shares total weight_sum (w ∷ ws) =
    quotient (total * w) weight_sum ∷ exact_shares total weight_sum ws

-- `parts = [int(e) for e in exact]`
pub whole_parts : List Decimal → List ℕ
unfolding to_int
whole_parts [] = []
whole_parts (e ∷ es) = to_int e ∷ whole_parts es

unfoldable pub allocate : ℕ → List ℕ → List ℕ
unfolding exact_shares whole_parts sort_from bump_first slice_end
allocate total weights =
    if total == 0 || sum weights == 0
    then replicate (length weights) 0
    else let exact = exact_shares total (sum weights) weights in
      let parts = whole_parts exact in
      bump_first (slice_end total (sum parts) (length weights)) (sort_from 0 exact) parts
