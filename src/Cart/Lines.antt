-- ===== src/Cart/Lines.antt =====
-- Good lines of a cart, and what single updates keep of them.
use fast_api_e_commerce.Prelude.{
  ℕ, ◌+◌, ◌<◌, true, false, ◌||◌, Option, List, [], ◌∷◌, ◌++◌, ◌≡◌, refl, arith, if◌then◌else◌, any,
}
use fast_api_e_commerce.Cart.{CartItem, is_line, update_quantity, increase, without_line}

-- how many of one product or variant the lines hold
abbrev pub quantity_of : ℕ → Option ℕ → List CartItem → ℕ
quantity_of product_id variant_id [] = 0
quantity_of product_id variant_id (i ∷ is) =
    let rest = quantity_of product_id variant_id is in
    if is_line product_id variant_id i then i.quantity + rest else rest

-- every quantity is positive, and no two lines have the same key
unfoldable pub GoodLines : List CartItem → Type 0
GoodLines [] = Unit
GoodLines (i ∷ is) =
    (0 < i.quantity) × (any (is_line i.product_id i.variant_id) is ≡ false) × GoodLines is

any-update_quantity :
    (p q : ℕ) (v w : Option ℕ) (n : ℕ) (is : List CartItem)
    → any (is_line p v) (update_quantity q w n is) ≡ any (is_line p v) is
unfolding update_quantity
any-update_quantity p q v w n [] = refl
any-update_quantity p q v w n (i ∷ is) = ground (arith, any-update_quantity p q v w n is)

pub update_quantity-GoodLines :
    (p : ℕ) (v : Option ℕ) (n : ℕ) (is : List CartItem)
    → 0 < n
    → GoodLines is
    → GoodLines (update_quantity p v n is)
unfolding update_quantity GoodLines
update_quantity-GoodLines p v n [] pos_n g = tt
update_quantity-GoodLines p v n (i ∷ is) pos_n (a, b, c) = ground (
  arith,
  update_quantity-GoodLines p v n is pos_n c,
  any-update_quantity i.product_id p i.variant_id v n is,
)

any-increase :
    (p : ℕ) (v : Option ℕ) (s : CartItem) (is : List CartItem)
    → any (is_line p v) (increase s is) ≡ any (is_line p v) is
unfolding increase
any-increase p v s [] = refl
any-increase p v s (i ∷ is) = ground (arith, any-increase p v s is)

pub increase-GoodLines :
    (s : CartItem) (is : List CartItem) → GoodLines is → GoodLines (increase s is)
unfolding increase GoodLines
increase-GoodLines s [] g = tt
increase-GoodLines s (i ∷ is) (a, b, c) =
    ground (arith, increase-GoodLines s is c, any-increase i.product_id i.variant_id s is)

any-append :
    (p : ℕ) (v : Option ℕ) (is : List CartItem) (i : CartItem)
    → any (is_line p v) (is ++ (i ∷ [])) ≡ (any (is_line p v) is || is_line p v i)
any-append p v [] i = ground arith
any-append p v (j ∷ is) i = ground (arith, any-append p v is i)

is_line_sym :
    (i j : CartItem) → is_line i.product_id i.variant_id j ≡ is_line j.product_id j.variant_id i
is_line_sym i j = ground arith

-- a line whose key is new, at the end
pub append-GoodLines :
    (is : List CartItem) (i : CartItem)
    → GoodLines is
    → 0 < i.quantity
    → any (is_line i.product_id i.variant_id) is ≡ false
    → GoodLines (is ++ (i ∷ []))
unfolding GoodLines
append-GoodLines [] i g pos_i new = (pos_i, refl, tt)
append-GoodLines (j ∷ is) i (a, b, c) pos_i new = (
  a,
  ground (arith, any-append j.product_id j.variant_id is i, is_line_sym j i),
  append-GoodLines is i c pos_i (ground arith),
)

any-without_line :
    (p q : ℕ) (v w : Option ℕ) (is : List CartItem)
    → any (is_line p v) is ≡ false
    → any (is_line p v) (without_line q w is) ≡ false
any-without_line p q v w [] h = refl
any-without_line p q v w (i ∷ is) h = ground (arith, any-without_line p q v w is)

pub without_line-GoodLines :
    (p : ℕ) (v : Option ℕ) (is : List CartItem) → GoodLines is → GoodLines (without_line p v is)
unfolding GoodLines
without_line-GoodLines p v [] g = tt
without_line-GoodLines p v (i ∷ is) (a, b, c) =
    ground
      (arith, without_line-GoodLines p v is c, any-without_line i.product_id p i.variant_id v is b)

-- the same key
pub same_line_iff :
    (p q : ℕ) (v w : Option ℕ) (i : CartItem)
    → is_line p v i ≡ true
    → is_line q w i ≡ true
    → (p ≡ q) × (v ≡ w)
same_line_iff p q v w i a b = ground arith

pub quantity_of-increase :
    (p : ℕ) (v : Option ℕ) (s : CartItem) (is : List CartItem)
    → any (is_line s.product_id s.variant_id) is ≡ true
    → quantity_of p v (increase s is) ≡ quantity_of p v is + quantity_of p v (s ∷ [])
unfolding increase
quantity_of-increase p v s [] h = absurd (ground arith)
quantity_of-increase p v s (i ∷ is) h = ground (arith, quantity_of-increase p v s is)

pub quantity_of-append :
    (p : ℕ) (v : Option ℕ) (is : List CartItem) (i : CartItem)
    → quantity_of p v (is ++ (i ∷ [])) ≡ quantity_of p v is + quantity_of p v (i ∷ [])
quantity_of-append p v [] i = ground arith
quantity_of-append p v (j ∷ is) i = ground (arith, quantity_of-append p v is i)
