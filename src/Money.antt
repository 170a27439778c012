-- ===== src/Money.antt =====
-- app/core/money.py: the currency table and the amounts sent to the payment provider. Codes are their
-- code points; `strip` and `lower` are Python's on ASCII texts.
pub mod Payable
pub mod Examples
use fast_api_e_commerce.Prelude.{
  ℕ, zero, suc, ◌+◌, Bool, true, false, not, ◌&&◌, ◌||◌, List, [], ◌∷◌, Result, ok, err, ◌>>=◌,
  ◌>>◌, raise_if, ltb, leb, ◌==◌, if◌then◌else◌, ℤ, pos, negsuc,
}
use fast_api_e_commerce.Orders.Types.{Text, same_text, lower, strip}

pub record Currency : Type 0 where
  pub code : Text
  pub exponent : ℕ
  pub payment_verified : Bool

pub data MoneyError : Type 0 where
  unsupported not_payable invalid_amount : MoneyError

abbrev pub usd : Text
usd = b'u' ∷ b's' ∷ b'd' ∷ []

abbrev pub inr : Text
inr = b'i' ∷ b'n' ∷ b'r' ∷ []

abbrev pub jpy : Text
jpy = b'j' ∷ b'p' ∷ b'y' ∷ []

abbrev pub kwd : Text
kwd = b'k' ∷ b'w' ∷ b'd' ∷ []

abbrev entry : Text → ℕ → Bool → Currency
entry c e v = record { code = c; exponent = e; payment_verified = v }

unfoldable pub currencies : List Currency
currencies =
    entry usd 2 true
    ∷ entry inr 2 true
    ∷ entry (b'e' ∷ b'u' ∷ b'r' ∷ []) 2 true
    ∷ entry (b'g' ∷ b'b' ∷ b'p' ∷ []) 2 true
    ∷ entry jpy 0 true
    ∷ entry (b'k' ∷ b'r' ∷ b'w' ∷ []) 0 false
    ∷ entry kwd 3 false
    ∷ entry (b'b' ∷ b'h' ∷ b'd' ∷ []) 3 false
    ∷ []

unfoldable pub normalize_code : Text → Text
unfolding strip
normalize_code code = lower (strip code)

find_currency : Text → List Currency → Result MoneyError Currency
find_currency code [] = err unsupported
find_currency code (c ∷ cs) = elim (same_text c.code code) [
  | true ↦ ok c
  | false ↦ find_currency code cs
]

unfoldable pub get_currency : Text → Result MoneyError Currency
unfolding find_currency normalize_code currencies
get_currency code = find_currency (normalize_code code) currencies

-- the amount, if it is more than 0
abbrev positive : ℤ → Result MoneyError ℕ
positive (pos zero) = err invalid_amount
positive (pos (suc n)) = ok (suc n)
positive (negsuc n) = err invalid_amount

unfoldable pub to_stripe_amount : ℤ → Text → Result MoneyError ℕ
to_stripe_amount minor code = do
  currency ← get_currency code
  raise_if (not currency.payment_verified) not_payable
  positive minor

unfoldable pub from_stripe_amount : ℤ → Text → Result MoneyError ℤ
from_stripe_amount amount code = get_currency code >>= λ _. ok amount
