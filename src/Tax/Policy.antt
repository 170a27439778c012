-- ===== src/Tax/Policy.antt =====
-- The two rounding policies of `calculate` in app/modules/tax/gst_calc.py: tax rounded for each line,
-- or once for each set of rates and spread back over its lines.
pub mod Totals
use fast_api_e_commerce.Prelude.{
  ℕ, zero, suc, Bool, true, false, ◌&&◌, List, [], ◌∷◌, ◌++◌, ◌==◌, if◌then◌else◌, replicate, sum,
  nth,
}
use fast_api_e_commerce.Tax.Allocate.{allocate}
use fast_api_e_commerce.Tax.Gst.{Rates, PricingMode, Amounts, slab_tax}

-- The lists `taxable`, `cgst`, `sgst` and `igst`, one amount to each line.
pub record Columns : Type 0 where
  pub taxable : List ℕ
  pub cgst : List ℕ
  pub sgst : List ℕ
  pub igst : List ℕ

pub add_row : Amounts → Columns → Columns
add_row a c = record {
  taxable = a.taxable ∷ c.taxable;
  cgst = a.cgst ∷ c.cgst;
  sgst = a.sgst ∷ c.sgst;
  igst = a.igst ∷ c.igst;
}

unfoldable pub zero_columns : ℕ → Columns
zero_columns n = record {
  taxable = replicate n 0;
  cgst = replicate n 0;
  sgst = replicate n 0;
  igst = replicate n 0;
}

-- 'line_half_up': the tax of each line is rounded.
unfoldable pub line_columns : List ℕ → List Rates → PricingMode → Columns
unfolding add_row zero_columns
line_columns (v ∷ vs) (r ∷ rs) mode = add_row (slab_tax v r mode) (line_columns vs rs mode)
line_columns _ _ mode = zero_columns 0

-- The dict `slabs`, in the order in which its keys were first met.
abbrev pub Slabs : Type 0
Slabs = List (Rates × List ℕ)

pub same_rates : Rates → Rates → Bool
same_rates a b = a.cgst == b.cgst && a.sgst == b.sgst && a.igst == b.igst

-- `slabs.setdefault(r, []).append(i)`
pub add_member : Rates → ℕ → Slabs → Slabs
unfolding same_rates
add_member r i [] = (r, i ∷ []) ∷ []
add_member r i ((q, members) ∷ rest) =
    if same_rates q r then (q, members ++ (i ∷ [])) ∷ rest else (q, members) ∷ add_member r i rest

-- `for i, r in enumerate(rates)`
unfoldable pub group_slabs : ℕ → List Rates → Slabs → Slabs
unfolding add_member
group_slabs i [] slabs = slabs
group_slabs i (r ∷ rs) slabs = group_slabs (suc i) rs (add_member r i slabs)

-- `[grosses[i] for i in members]`
pub pick : List ℕ → List ℕ → List ℕ
pick grosses [] = []
pick grosses (i ∷ is) = nth i grosses ∷ pick grosses is

-- `target[i] = part`
pub put : ℕ → ℕ → List ℕ → List ℕ
put i part [] = []
put zero part (x ∷ xs) = part ∷ xs
put (suc i) part (x ∷ xs) = x ∷ put i part xs

-- `for i, part in zip(members, parts): target[i] = part`
pub put_parts : List ℕ → List ℕ → List ℕ → List ℕ
unfolding put
put_parts (i ∷ is) (part ∷ parts) target = put_parts is parts (put i part target)
put_parts _ _ target = target

-- The body of the loop over the slabs: one rounding for the slab, spread back over its lines.
pub add_slab : List ℕ → PricingMode → Rates × List ℕ → Columns → Columns
unfolding pick put_parts
add_slab grosses mode (r, members) c =
    let weights = pick grosses members in
    let t = slab_tax (sum weights) r mode in
    record {
      taxable = put_parts members (allocate t.taxable weights) c.taxable;
      cgst = put_parts members (allocate t.cgst weights) c.cgst;
      sgst = put_parts members (allocate t.sgst weights) c.sgst;
      igst = put_parts members (allocate t.igst weights) c.igst;
    }

unfoldable pub add_slabs : List ℕ → PricingMode → Slabs → Columns → Columns
unfolding add_slab
add_slabs grosses mode [] c = c
add_slabs grosses mode (s ∷ ss) c = add_slabs grosses mode ss (add_slab grosses mode s c)
