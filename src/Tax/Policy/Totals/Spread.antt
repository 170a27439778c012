-- ===== src/Tax/Policy/Totals/Spread.antt =====
-- Sums over the members of slabs, and what writing the parts of one slab does to a column.
use fast_api_e_commerce.Prelude.{
  ℕ, zero, suc, ◌+◌, ◌≤◌, ◌<◌, ◌≡◌, ◌≢◌, ◌∙◌, refl, ap, List, [], ◌∷◌, ◌++◌, arith, ◌==◌,
  if◌then◌else◌, length, sum, nth, leb, ltb, range_sum, range_sum-nth,
}
use fast_api_e_commerce.Tax.Gst.{Rates}
use fast_api_e_commerce.Tax.Policy.{Slabs, add_member, group_slabs, pick, put, put_parts}

-- the sum of f over the members of one slab, and of all
abbrev pub member_sum : (ℕ → ℕ) → List ℕ → ℕ
member_sum f [] = 0
member_sum f (i ∷ is) = f i + member_sum f is

abbrev pub slab_sum : (ℕ → ℕ) → Slabs → ℕ
slab_sum f [] = 0
slab_sum f ((_, members) ∷ rest) = member_sum f members + slab_sum f rest

module _ (f : ℕ → ℕ) where
  member_sum-append : (is : List ℕ) (i : ℕ) → member_sum f (is ++ (i ∷ [])) ≡ member_sum f is + f i
  member_sum-append [] i = omega arith
  member_sum-append (j ∷ js) i = omega (arith, member_sum-append js i)

  slab_sum-add_member :
      (r : Rates) (i : ℕ) (s : Slabs) → slab_sum f (add_member r i s) ≡ slab_sum f s + f i
  unfolding add_member
  slab_sum-add_member r i [] = omega arith
  slab_sum-add_member r i ((q, ms) ∷ rest) =
      ground (arith, member_sum-append ms i, slab_sum-add_member r i rest)

  slab_sum-group_from :
      (i : ℕ) (rs : List Rates) (s : Slabs)
      → slab_sum f (group_slabs i rs s) ≡ slab_sum f s + range_sum f i (length rs)
  unfolding group_slabs
  slab_sum-group_from i [] s = omega arith
  slab_sum-group_from i (r ∷ rs) s =
      omega (arith, slab_sum-group_from (suc i) rs (add_member r i s), slab_sum-add_member r i s)

  -- Grouping takes each line into exactly one slab.
  pub slab_sum-group_slabs :
      (rs : List Rates) → slab_sum f (group_slabs 0 rs []) ≡ range_sum f 0 (length rs)
  slab_sum-group_slabs rs = omega (arith, slab_sum-group_from 0 rs [])

-- 1 at k and 0 elsewhere: its sum counts k
abbrev pub is_at : ℕ → ℕ → ℕ
is_at k i = if i == k then 1 else 0

range_sum-is_at : (k i n : ℕ) → range_sum (is_at k) i n ≤ (if leb i k then 1 else 0)
range_sum-is_at k i zero = ground arith
range_sum-is_at k i (suc n) = ground (arith, range_sum-is_at k (suc i) n)

-- No line is in two slabs.
pub group_slabs_once : (k : ℕ) (rs : List Rates) → slab_sum (is_at k) (group_slabs 0 rs []) ≤ 1
group_slabs_once k rs =
    ground (arith, slab_sum-group_slabs (is_at k) rs, range_sum-is_at k 0 (length rs))

-- 1 at and beyond n: its sum counts the indices out of range
abbrev pub is_beyond : ℕ → ℕ → ℕ
is_beyond n i = if ltb i n then 0 else 1

range_sum-is_beyond : (n i m : ℕ) → i + m ≤ n → range_sum (is_beyond n) i m ≡ 0
range_sum-is_beyond n i zero h = refl
range_sum-is_beyond n i (suc m) h = ground (arith, range_sum-is_beyond n (suc i) m (omega arith))

pub group_slabs_in_range :
    (rs : List Rates) → slab_sum (is_beyond (length rs)) (group_slabs 0 rs []) ≡ 0
group_slabs_in_range rs =
    slab_sum-group_slabs (is_beyond (length rs)) rs
    ∙ range_sum-is_beyond (length rs) 0 (length rs) (omega arith)

-- The weights of all the slabs come to the grosses.
pub sum-group_slabs :
    (grosses : List ℕ) (rs : List Rates)
    → length rs ≡ length grosses
    → slab_sum (λ k. nth k grosses) (group_slabs 0 rs []) ≡ sum grosses
sum-group_slabs grosses rs e =
    slab_sum-group_slabs (λ k. nth k grosses) rs ∙ rw e (range_sum-nth grosses)

pub sum-pick : (xs is : List ℕ) → sum (pick xs is) ≡ member_sum (λ k. nth k xs) is
unfolding pick
sum-pick xs [] = refl
sum-pick xs (i ∷ is) = omega (arith, sum-pick xs is)

pub length-pick : (xs is : List ℕ) → length (pick xs is) ≡ length is
unfolding pick
length-pick xs [] = refl
length-pick xs (i ∷ is) = ap suc (length-pick xs is)

sum-put : (i p : ℕ) (xs : List ℕ) → i < length xs → sum (put i p xs) + nth i xs ≡ sum xs + p
unfolding put
sum-put i p [] h = absurd (omega arith)
sum-put zero p (x ∷ xs) h = omega arith
sum-put (suc i) p (x ∷ xs) h = omega (arith, sum-put i p xs (omega arith))

length-put : (i p : ℕ) (xs : List ℕ) → length (put i p xs) ≡ length xs
unfolding put
length-put i p [] = refl
length-put zero p (x ∷ xs) = refl
length-put (suc i) p (x ∷ xs) = ap suc (length-put i p xs)

nth-put_ne : (k i p : ℕ) (xs : List ℕ) → i ≢ k → nth k (put i p xs) ≡ nth k xs
unfolding put
nth-put_ne k i p [] h = refl
nth-put_ne zero zero p (x ∷ xs) h = absurd (h refl)
nth-put_ne zero (suc i) p (x ∷ xs) h = refl
nth-put_ne (suc k) zero p (x ∷ xs) h = refl
nth-put_ne (suc k) (suc i) p (x ∷ xs) h = nth-put_ne k i p xs (λ e. h (ap suc e))

pub length-put_parts : (is ps xs : List ℕ) → length (put_parts is ps xs) ≡ length xs
unfolding put_parts
length-put_parts [] ps xs = refl
length-put_parts (i ∷ is) [] xs = refl
length-put_parts (i ∷ is) (p ∷ ps) xs = length-put_parts is ps (put i p xs) ∙ length-put i p xs

-- A line outside the slab keeps its amount.
pub nth-put_parts :
    (k : ℕ) (is ps xs : List ℕ)
    → member_sum (is_at k) is ≡ 0
    → nth k (put_parts is ps xs) ≡ nth k xs
unfolding put_parts
nth-put_parts k [] ps xs h = refl
nth-put_parts k (i ∷ is) [] xs h = refl
nth-put_parts k (i ∷ is) (p ∷ ps) xs h =
    nth-put_parts k is ps (put i p xs) (omega arith) ∙ nth-put_ne k i p xs (ground arith)

member_sum-put :
    (i p : ℕ) (xs is : List ℕ)
    → member_sum (is_at i) is ≡ 0
    → member_sum (λ k. nth k (put i p xs)) is ≡ member_sum (λ k. nth k xs) is
member_sum-put i p xs [] h = refl
member_sum-put i p xs (j ∷ js) h = omega (
  arith,
  nth-put_ne j i p xs (λ e. absurd (ground arith)),
  member_sum-put i p xs js (omega arith),
)

-- Writing a slab's parts into its lines changes the column's sum by the parts less what they replace.
pub sum-put_parts :
    (is ps xs : List ℕ)
    → ((k : ℕ) → member_sum (is_at k) is ≤ 1)
    → member_sum (is_beyond (length xs)) is ≡ 0
    → length ps ≡ length is
    → sum (put_parts is ps xs) + member_sum (λ k. nth k xs) is ≡ sum xs + sum ps
unfolding put_parts
sum-put_parts [] [] xs once inside e = omega arith
sum-put_parts [] (p ∷ ps) xs once inside e = absurd (omega arith)
sum-put_parts (i ∷ is) [] xs once inside e = absurd (omega arith)
sum-put_parts (i ∷ is) (p ∷ ps) xs once inside e = omega (
  arith,
  sum-put_parts is ps (put i p xs) (λ k. omega (arith, once k))
      (rw (length-put i p xs) (omega arith)) (omega arith),
  sum-put i p xs (ground arith),
  member_sum-put i p xs is (ground (arith, once i)),
)

member_sum-put_parts :
    (is ps xs js : List ℕ)
    → ((k : ℕ) → member_sum (is_at k) is + member_sum (is_at k) js ≤ 1)
    → member_sum (λ k. nth k (put_parts is ps xs)) js ≡ member_sum (λ k. nth k xs) js
member_sum-put_parts is ps xs [] once = refl
member_sum-put_parts is ps xs (j ∷ js) once = omega (
  arith,
  nth-put_parts j is ps xs (ground (arith, once j)),
  member_sum-put_parts is ps xs js (λ k. omega (arith, once k)),
)

-- The lines of the other slabs keep their amounts.
pub slab_sum-put_parts :
    (is ps xs : List ℕ) (s : Slabs)
    → ((k : ℕ) → member_sum (is_at k) is + slab_sum (is_at k) s ≤ 1)
    → slab_sum (λ k. nth k (put_parts is ps xs)) s ≡ slab_sum (λ k. nth k xs) s
slab_sum-put_parts is ps xs [] once = refl
slab_sum-put_parts is ps xs ((r, js) ∷ s) once = omega (
  arith,
  member_sum-put_parts is ps xs js (λ k. omega (arith, once k)),
  slab_sum-put_parts is ps xs s (λ k. omega (arith, once k)),
)
