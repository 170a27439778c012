-- ===== src/Money/Payable.antt =====
-- What may be sent to the provider.
use fast_api_e_commerce.Prelude.{ℕ, ◌<◌, ◌≡◌, true, ok, ℤ, pos, arith}
use fast_api_e_commerce.Orders.Types.{Text}
use fast_api_e_commerce.Money.{Currency, get_currency, to_stripe_amount, from_stripe_amount}

-- An amount reaches the provider only unchanged, positive, and in a currency verified for payments;
-- reading it back gives the same amount.
pub to_stripe_amount_sound :
    (minor : ℤ) (code : Text) {n : ℕ}
    → to_stripe_amount minor code ≡ ok n
    → (minor ≡ pos n)
      × (0 < n)
      × ((c : Currency) → get_currency code ≡ ok c → c.payment_verified ≡ true)
      × (from_stripe_amount (pos n) code ≡ ok minor)
unfolding to_stripe_amount from_stripe_amount
to_stripe_amount_sound minor code h =
    (ground arith, ground arith, λ c e. ground arith, ground arith)
