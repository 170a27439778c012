-- ===== src/Prelude/Lists.antt =====
-- Lists measured and indexed by native numbers, under the library's names.
use Prim.Native.Nat.{ℕ, zero, suc, ◌+◌}
use mathlib.Core.Path.{◌≡◌, refl, ap}
use mathlib.Core.Bool.{Bool, true, false, ◌||◌}
use mathlib.Core.List.{List, [], ◌∷◌, map}
use mathlib.Core.Option.{Option, none, some}
use native.Mathlib.Omega.{arith}
use native.Mathlib.Nat.{zero-add}

module _ {ℓ} {A : Type ℓ} where
  abbrev pub length : List A → ℕ
  length [] = 0
  length (_ ∷ xs) = suc (length xs)

  abbrev pub replicate : ℕ → A → List A
  replicate zero _ = []
  replicate (suc n) a = a ∷ replicate n a

  abbrev pub get_elem? : List A → ℕ → Option A
  get_elem? [] _ = none
  get_elem? (x ∷ _) zero = some x
  get_elem? (_ ∷ xs) (suc i) = get_elem? xs i

  -- Python's `any` and `all` of a test over a list
  abbrev pub any : (A → Bool) → List A → Bool
  any p [] = false
  any p (x ∷ xs) = p x || any p xs

  -- the elements that pass a test, in order
  abbrev pub select : (A → Bool) → List A → List A
  select p [] = []
  select p (x ∷ xs) = elim (p x) [ true ↦ x ∷ select p xs | false ↦ select p xs ]

  -- `next((x for x in xs if p(x)), None)`
  abbrev pub find : (A → Bool) → List A → Option A
  find p [] = none
  find p (x ∷ xs) = elim (p x) [ true ↦ some x | false ↦ find p xs ]

  pub length-replicate : (n : ℕ) (a : A) → length (replicate n a) ≡ n
  length-replicate zero a = refl
  length-replicate (suc n) a = ap suc (length-replicate n a)

pub length-map {ℓ κ} :
    {A : Type ℓ} {B : Type κ} (f : A → B) (xs : List A) → length (map f xs) ≡ length xs
length-map f [] = refl
length-map f (_ ∷ xs) = ap suc (length-map f xs)

-- Python's `sum` of a list of naturals
abbrev pub sum : List ℕ → ℕ
sum [] = 0
sum (x ∷ xs) = x + sum xs

-- `xs[k]` of a list of amounts; 0 beyond its end, where the source never reads
abbrev pub nth : ℕ → List ℕ → ℕ
nth k [] = 0
nth zero (x ∷ xs) = x
nth (suc k) (x ∷ xs) = nth k xs

-- `[a + b for a, b in zip(xs, ys)]`
abbrev pub zip_add : List ℕ → List ℕ → List ℕ
zip_add [] _ = []
zip_add (_ ∷ _) [] = []
zip_add (x ∷ xs) (y ∷ ys) = (x + y) ∷ zip_add xs ys

pub sum-replicate_zero : (n : ℕ) → sum (replicate n 0) ≡ 0
sum-replicate_zero zero = refl
sum-replicate_zero (suc n) = omega (arith, sum-replicate_zero n)

pub sum-zip_add : (xs ys : List ℕ) → length xs ≡ length ys → sum (zip_add xs ys) ≡ sum xs + sum ys
sum-zip_add [] [] h = refl
sum-zip_add [] (y ∷ ys) h = absurd (omega arith)
sum-zip_add (x ∷ xs) [] h = absurd (omega arith)
sum-zip_add (x ∷ xs) (y ∷ ys) h = omega (arith, sum-zip_add xs ys (omega arith))

pub length-zip_add : (xs ys : List ℕ) → length xs ≡ length ys → length (zip_add xs ys) ≡ length xs
length-zip_add [] ys h = refl
length-zip_add (x ∷ xs) [] h = absurd (omega arith)
length-zip_add (x ∷ xs) (y ∷ ys) h = omega (arith, length-zip_add xs ys (omega arith))

-- the sum of f over i, ..., i + n - 1
abbrev pub range_sum : (ℕ → ℕ) → ℕ → ℕ → ℕ
range_sum f i zero = 0
range_sum f i (suc n) = f i + range_sum f (suc i) n

range_sum-nth_from :
    (i : ℕ) (xs ys : List ℕ)
    → ((k : ℕ) → nth (i + k) xs ≡ nth k ys)
    → range_sum (λ k. nth k xs) i (length ys) ≡ sum ys
range_sum-nth_from i xs [] h = refl
range_sum-nth_from i xs (y ∷ ys) h =
    omega (arith, at_zero (h 0), range_sum-nth_from (suc i) xs ys (λ k. rw (shift i k) (h (suc k))))
  where
    shift : (a b : ℕ) → suc a + b ≡ a + suc b
    shift a b = omega arith

    at_zero : nth (i + 0) xs ≡ y → nth i xs ≡ y
    at_zero e = let p : i + 0 ≡ i = omega arith in rw p at e

pub range_sum-nth : (xs : List ℕ) → range_sum (λ k. nth k xs) 0 (length xs) ≡ sum xs
range_sum-nth xs = range_sum-nth_from 0 xs xs (λ k. rw (zero-add k))

pub nth-zeros : (k n : ℕ) → nth k (replicate n 0) ≡ 0
nth-zeros k zero = refl
nth-zeros zero (suc n) = refl
nth-zeros (suc k) (suc n) = nth-zeros k n
