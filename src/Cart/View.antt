-- ===== src/Cart/View.antt =====
-- app/modules/cart/services: what a line costs now and why it cannot be bought (cart_view.py), and the
-- fingerprint of a cart (cart_digest.py). SHA-256 is a function on texts, a hash a number.
use fast_api_e_commerce.Prelude.{
  ℕ, zero, suc, ◌+◌, ◌/◌, ◌%◌, Bool, true, false, not, ◌&&◌, ◌||◌, Option, none, some, List, [],
  ◌∷◌, ◌++◌, map, ltb, ◌==◌, if◌then◌else◌, get_or,
}
use fast_api_e_commerce.Orders.Types.{Text}
use fast_api_e_commerce.Products.{Product, Variant, effective_price}
use fast_api_e_commerce.Cart.{CartItem}

pub data Unavailable : Type 0 where
  unavailable out_of_stock insufficient_stock : Unavailable

pub record LineState : Type 0 where
  pub price_cents : ℕ
  pub stock : ℕ
  pub reason : Option Unavailable

abbrev stock_reason : ℕ → ℕ → Option Unavailable
stock_reason stock quantity =
    if stock == 0
    then some out_of_stock
    else if ltb stock quantity
    then some insufficient_stock
    else none

unfoldable pub line_state : Product → Option Variant → ℕ → LineState
line_state product (some variant) quantity = record {
  price_cents = effective_price variant product.price_cents;
  stock = variant.stock;
  reason =
      if not product.is_active || not variant.is_active
      then some unavailable
      else stock_reason variant.stock quantity;
}
line_state product none quantity = record {
  price_cents = product.price_cents;
  stock = product.stock;
  reason = if not product.is_active then some unavailable else stock_reason product.stock quantity;
}

-- the decimal digits before `acc`; n has at most as many of them as the fuel
digits : ℕ → ℕ → Text → Text
digits zero n acc = acc
digits (suc fuel) n acc =
    let rest = digits fuel (n / 10) ((48 + n % 10) ∷ acc) in
    if ltb n 10 then (48 + n) ∷ acc else rest

-- `str` of a natural number
pub decimal : ℕ → Text
decimal n = digits (suc n) n []

-- `f"{line.product_id}:{line.variant_id or 0}:{line.quantity}"`
abbrev part : CartItem → Text
part i = decimal i.product_id ++ (58 ∷ decimal (get_or i.variant_id 0) ++ (58 ∷ decimal i.quantity))

-- Python's `<=` on texts
abbrev pub leb_text : Text → Text → Bool
leb_text [] t = true
leb_text (a ∷ s) [] = false
leb_text (a ∷ s) (b ∷ t) = ltb a b || (a == b && leb_text s t)

insert_text : Text → List Text → List Text
insert_text s [] = s ∷ []
insert_text s (t ∷ ts) = elim (leb_text s t) [ true ↦ s ∷ t ∷ ts | false ↦ t ∷ insert_text s ts ]

pub sorted : List Text → List Text
sorted [] = []
sorted (t ∷ ts) = insert_text t (sorted ts)

-- `"|".join(parts)`
abbrev pub joined : List Text → Text
joined [] = []
joined (t ∷ []) = t
joined (t ∷ s ∷ ts) = t ++ (124 ∷ joined (s ∷ ts))

unfoldable pub cart_digest : (Text → ℕ) → List CartItem → ℕ
cart_digest sha256 lines = sha256 (joined (sorted (map part lines)))
