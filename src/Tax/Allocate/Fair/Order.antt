-- ===== src/Tax/Allocate/Fair/Order.antt =====
-- The order in which `_allocate` hands out what is left of the total.
use fast_api_e_commerce.Prelude.{
  ℕ, zero, suc, ◌+◌, ◌*◌, ◌^◌, ◌≤◌, ◌<◌, ◌≡◌, ◌≢◌, ◌↔◌, refl, ap, true, false, List, [], ◌∷◌, arith,
  inl, inr, ltb, ◌==◌, if◌then◌else◌, Bool-cases, length, nth,
}
use fast_api_e_commerce.Tax.Allocate.{
  Decimal, fraction, before, insert, sort_from, bump, bump_first,
}
use native.Mathlib.Decide.{dec_lt}
use native.Mathlib.Nat.{pow-le-pow_right, mul-le-mul_right}

abbrev pub Entry : Type 0
Entry = ℕ × Decimal

-- how often the index k stands among the first n of the order
abbrev pub occurs : ℕ → ℕ → List Entry → ℕ
occurs k zero xs = 0
occurs k (suc n) [] = 0
occurs k (suc n) ((i, _) ∷ xs) = (if i == k then 1 else 0) + occurs k n xs

nth-bump :
    (k i : ℕ) (ps : List ℕ)
    → k < length ps
    → nth k (bump i ps) ≡ nth k ps + (if i == k then 1 else 0)
unfolding bump
nth-bump k i [] h = absurd (omega arith)
nth-bump zero zero (p ∷ ps) h = ground arith
nth-bump zero (suc i) (p ∷ ps) h = ground arith
nth-bump (suc k) zero (p ∷ ps) h = ground arith
nth-bump (suc k) (suc i) (p ∷ ps) h = ground (arith, nth-bump k i ps (omega arith))

length-bump : (i : ℕ) (ps : List ℕ) → length (bump i ps) ≡ length ps
unfolding bump
length-bump i [] = refl
length-bump zero (p ∷ ps) = refl
length-bump (suc i) (p ∷ ps) = ap suc (length-bump i ps)

pub nth-bump_first :
    (k n : ℕ) (order : List Entry) (ps : List ℕ)
    → k < length ps
    → nth k (bump_first n order ps) ≡ nth k ps + occurs k n order
unfolding bump_first
nth-bump_first k zero order ps h = omega arith
nth-bump_first k (suc n) [] ps h = omega arith
nth-bump_first k (suc n) ((i, e) ∷ order) ps h =
    omega (arith, nth-bump k i ps h, nth-bump_first k n order (bump i ps) (rw (length-bump i ps) h))

-- how often k stands in the whole order
abbrev count : ℕ → List Entry → ℕ
count k [] = 0
count k ((i, _) ∷ xs) = (if i == k then 1 else 0) + count k xs

occurs-le-count : (k n : ℕ) (xs : List Entry) → occurs k n xs ≤ count k xs
occurs-le-count k zero xs = omega arith
occurs-le-count k (suc n) [] = omega arith
occurs-le-count k (suc n) (x ∷ xs) = omega (arith, occurs-le-count k n xs)

count-insert : (k : ℕ) (x : Entry) (xs : List Entry) → count k (insert x xs) ≡ count k (x ∷ xs)
unfolding insert
count-insert k x [] = refl
count-insert k x (y ∷ ys) = ground (arith, count-insert k x ys)

count-sort_from :
    (k i : ℕ) (es : List Decimal) → count k (sort_from i es) ≤ (if ltb k i then 0 else 1)
unfolding sort_from
count-sort_from k i [] = ground arith
count-sort_from k i (e ∷ es) =
    ground (arith, count-insert k (i, e) (sort_from (suc i) es), count-sort_from k (suc i) es)

-- No index is handed more than one paisa.
pub occurs-sort_from : (k n : ℕ) (es : List Decimal) → occurs k n (sort_from 0 es) ≤ 1
occurs-sort_from k n es =
    ground (arith, occurs-le-count k n (sort_from 0 es), count-sort_from k 0 es)

-- the entries whose part is inexact
abbrev pub inexact : List Entry → ℕ
inexact [] = 0
inexact ((_, e) ∷ xs) = (if fraction e == 0 then 0 else 1) + inexact xs

inexact-insert : (x : Entry) (xs : List Entry) → inexact (insert x xs) ≡ inexact (x ∷ xs)
unfolding insert
inexact-insert x [] = refl
inexact-insert x (y ∷ ys) = ground (arith, inexact-insert x ys)

abbrev pub inexact_parts : List Decimal → ℕ
inexact_parts [] = 0
inexact_parts (e ∷ es) = (if fraction e == 0 then 0 else 1) + inexact_parts es

-- after an exact entry there are only exact ones
abbrev ZeroTail : List Entry → Type 0
ZeroTail [] = Unit
ZeroTail ((_, e) ∷ xs) = (fraction e ≡ 0 → inexact xs ≡ 0) × ZeroTail xs

pow_pos : (p : ℕ) → 1 ≤ 10 ^ p
pow_pos p = pow-le-pow_right {n = 10} (omega arith) {i = 0} {j = p} (omega arith)

before-exact : (x y : Entry) → before x y ≡ true → fraction x.1 ≡ 0 → fraction y.1 ≡ 0
unfolding before
before-exact (i, a) (j, b) h e = elim (dec_lt 0 (fraction b)) [
  | yes p ↦ absurd (
      ground (
        arith,
        pow_pos a.places,
        mul-le-mul_right (10 ^ a.places) p,
        ap (λ (t : ℕ). t * 10 ^ b.places) e,
      ))
  | no p ↦ omega arith
]

not_before-exact : (x y : Entry) → before x y ≡ false → fraction y.1 ≡ 0 → fraction x.1 ≡ 0
unfolding before
not_before-exact (i, a) (j, b) h e = elim (dec_lt 0 (fraction a)) [
  | yes p ↦ absurd (
      ground (
        arith,
        pow_pos b.places,
        mul-le-mul_right (10 ^ b.places) p,
        ap (λ (t : ℕ). t * 10 ^ a.places) e,
      ))
  | no p ↦ omega arith
]

insert-ZeroTail : (x : Entry) (xs : List Entry) → ZeroTail xs → ZeroTail (insert x xs)
unfolding insert
insert-ZeroTail x [] z = (λ _. refl, tt)
insert-ZeroTail x (y ∷ ys) z =
    ground
      (arith, insert-ZeroTail x ys z.1, before-exact x y, not_before-exact x y, inexact-insert x ys)

sort_from-ZeroTail : (i : ℕ) (es : List Decimal) → ZeroTail (sort_from i es)
unfolding sort_from
sort_from-ZeroTail i [] = tt
sort_from-ZeroTail i (e ∷ es) =
    insert-ZeroTail (i, e) (sort_from (suc i) es) (sort_from-ZeroTail (suc i) es)

-- each entry's part is inexact just where `rest` of its index is not 0
abbrev Linked : (ℕ → ℕ) → List Entry → Type 0
Linked rest [] = Unit
Linked rest ((i, e) ∷ xs) = ((fraction e ≡ 0) ↔ (rest i ≡ 0)) × Linked rest xs

insert-Linked :
    (rest : ℕ → ℕ) (i : ℕ) (e : Decimal) (xs : List Entry)
    → ((fraction e ≡ 0) ↔ (rest i ≡ 0))
    → Linked rest xs
    → Linked rest (insert (i, e) xs)
unfolding insert
insert-Linked rest i e [] h l = (h, tt)
insert-Linked rest i e ((j, f) ∷ xs) h l = elim (Bool-cases (before (i, e) (j, f))) [
  | inl t ↦ rw t (h, l)
  | inr t ↦ rw t (l.0, insert-Linked rest i e xs h l.1)
]

-- the exact parts from index i on
abbrev pub Aligned : (ℕ → ℕ) → ℕ → List Decimal → Type 0
Aligned rest i [] = Unit
Aligned rest i (e ∷ es) = ((fraction e ≡ 0) ↔ (rest i ≡ 0)) × Aligned rest (suc i) es

sort_from-Linked :
    (rest : ℕ → ℕ) (i : ℕ) (es : List Decimal) → Aligned rest i es → Linked rest (sort_from i es)
unfolding sort_from
sort_from-Linked rest i [] a = tt
sort_from-Linked rest i (e ∷ es) a =
    insert-Linked rest i e (sort_from (suc i) es) a.0 (sort_from-Linked rest (suc i) es a.1)

taken_of-ZeroTail :
    (rest : ℕ → ℕ) (k n : ℕ) (xs : List Entry)
    → ZeroTail xs
    → Linked rest xs
    → n ≤ inexact xs
    → 0 < occurs k n xs
    → rest k ≢ 0
taken_of-ZeroTail rest k zero xs z l h o = absurd (omega arith)
taken_of-ZeroTail rest k (suc n) [] z l h o = absurd (omega arith)
taken_of-ZeroTail rest k (suc n) ((i, e) ∷ xs) z l h o =
    λ r. ground (arith, taken_of-ZeroTail rest k n xs z.1 l.1, λ (q : i ≡ k). ap rest q, z.0, l.0)

pub inexact-sort_from : (i : ℕ) (es : List Decimal) → inexact (sort_from i es) ≡ inexact_parts es
unfolding sort_from
inexact-sort_from i [] = refl
inexact-sort_from i (e ∷ es) =
    omega (arith, inexact-insert (i, e) (sort_from (suc i) es), inexact-sort_from (suc i) es)

-- An index handed a paisa has an inexact part, if no more are handed out than there are such parts.
pub taken_inexact :
    (rest : ℕ → ℕ) (k n : ℕ) (es : List Decimal)
    → Aligned rest 0 es
    → n ≤ inexact_parts es
    → 0 < occurs k n (sort_from 0 es)
    → rest k ≢ 0
taken_inexact rest k n es a h o =
    taken_of-ZeroTail rest k n (sort_from 0 es) (sort_from-ZeroTail 0 es)
      (sort_from-Linked rest 0 es a) (rw (inexact-sort_from 0 es) h) o
