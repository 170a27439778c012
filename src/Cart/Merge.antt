-- ===== src/Cart/Merge.antt =====
-- The merge of a guest's lines into the user's cart.
use fast_api_e_commerce.Prelude.{
  ℕ, suc, ◌+◌, Option, List, [], ◌∷◌, ◌++◌, ◌≡◌, inl, inr, arith, any, Bool-cases,
}
use fast_api_e_commerce.Cart.{CartItem, is_line, increase, merge_items}
use fast_api_e_commerce.Cart.Lines.{
  quantity_of, GoodLines, increase-GoodLines, append-GoodLines, quantity_of-increase,
  quantity_of-append,
}

-- Of every product and variant, the merged lines hold as many as both carts together.
pub quantity_of-merge_items :
    (p : ℕ) (v : Option ℕ) (items incoming : List CartItem) (next : ℕ)
    → quantity_of p v (merge_items items incoming next).0
      ≡ quantity_of p v items + quantity_of p v incoming
unfolding merge_items
quantity_of-merge_items p v items [] next = ground arith
quantity_of-merge_items p v items (s ∷ ss) next =
    elim (Bool-cases (any (is_line s.product_id s.variant_id) items)) [
      | inl h ↦ ground (
        arith,
        quantity_of-merge_items p v (increase s items) ss next,
        quantity_of-increase p v s items h,
      )
      | inr h ↦
          let i = record s { id = next } in
          ground (
            arith,
            quantity_of-merge_items p v (items ++ (i ∷ [])) ss (suc next),
            quantity_of-append p v items i,
          )
    ]

-- A merge keeps every line in a positive quantity and no two lines of one product or variant.
pub merge_items-GoodLines :
    (items incoming : List CartItem) (next : ℕ)
    → GoodLines items
    → GoodLines incoming
    → GoodLines (merge_items items incoming next).0
unfolding merge_items GoodLines
merge_items-GoodLines items [] next g h = g
merge_items-GoodLines items (s ∷ ss) next g (a, b, c) =
    elim (Bool-cases (any (is_line s.product_id s.variant_id) items)) [
      | inl h ↦
          ground (
            arith,
            merge_items-GoodLines (increase s items) ss next (increase-GoodLines s items g) c,
          )
      | inr h ↦
          let i = record s { id = next } in
          ground (
            arith,
            merge_items-GoodLines (items ++ (i ∷ [])) ss (suc next) (append-GoodLines items i g a h)
                c,
          )
    ]
