-- ===== src/Orders/Access/Examples.antt =====
-- A guest's order whose payment capability is issued a second time.
use fast_api_e_commerce.Prelude.{◌≤◌, ◌≡◌, ◌↔◌, false, none, some, [], ◌∷◌, ok, refl, sum}
use fast_api_e_commerce.Orders.Types.{Order, OrderStatus, Text}
use fast_api_e_commerce.Orders.Access.{OrderRow, issue_guest_payment_token, authorize_guest_payment}
use fast_api_e_commerce.Orders.Access.Capability.{put_row, issue_guest_payment_token_iff}

abbrev unpaid : Order
unpaid = record {
  id = 1;
  user_id = none;
  guest_token = some 8;
  guest_email = some (b'g' ∷ []);
  status = OrderStatus.pending;
  idempotency_key = 77;
  request_hash = some 5;
  cart_digest = some 6;
  currency = some (b'i' ∷ b'n' ∷ b'r' ∷ []);
  subtotal_cents = 19900;
  discount_cents = 0;
  coupon_id = none;
  shipping_cents = 5000;
  tax_cents = 0;
  total_cents = 24900;
  gst_order = false;
  paid_in_demo_mode = false;
  stock_released = false;
  items = [];
}

abbrev row : OrderRow
row = record { order = unpaid; payment_token_hash = some 3; created_at = 1000 }

abbrev issued : OrderRow
issued = record row { payment_token_hash = some 9 }

abbrev new_token : Text
new_token = 4 ∷ 5 ∷ []

issued_run : issue_guest_payment_token sum new_token row ≡ (some new_token, issued)
unfolding issue_guest_payment_token
issued_run = refl

issue_guest_payment_token_iff_example :
    (authorize_guest_payment sum 1500 30 (put_row issued (row ∷ [])) 1 (3 ∷ []) ≡ ok unpaid)
    ↔ ((sum new_token ≡ sum (3 ∷ [])) × (500 ≤ 1800))
issue_guest_payment_token_iff_example =
    issue_guest_payment_token_iff sum new_token new_token (row ∷ []) row issued 1500 30 (3 ∷ [])
      refl issued_run
