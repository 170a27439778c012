-- ===== src/Money/Examples.antt =====
-- An amount in rupees.
use fast_api_e_commerce.Prelude.{◌<◌, ◌≡◌, refl, true, ok, pos}
use fast_api_e_commerce.Money.{Currency, get_currency, to_stripe_amount, from_stripe_amount, inr}
use fast_api_e_commerce.Money.Payable.{to_stripe_amount_sound}

to_stripe_amount_sound_example :
    (pos 26960 ≡ pos 26960)
    × (0 < 26960)
    × ((c : Currency) → get_currency inr ≡ ok c → c.payment_verified ≡ true)
    × (from_stripe_amount (pos 26960) inr ≡ ok (pos 26960))
unfolding to_stripe_amount get_currency
to_stripe_amount_sound_example = to_stripe_amount_sound (pos 26960) inr {n = 26960} refl
