-- ===== src/Orders/Access/Capability.antt =====
-- The guest payment capability that was issued last.
use fast_api_e_commerce.Prelude.{
  ℕ, ◌-◌, ◌*◌, ◌≤◌, none, some, List, [], ◌∷◌, ok, ◌==◌, ◌≡◌, ◌↔◌, refl, ap, ◌∙◌, arith,
  if◌then◌else◌,
}
use fast_api_e_commerce.Orders.Types.{Order, Text}
use fast_api_e_commerce.Orders.Access.{
  OrderRow, issue_guest_payment_token, get_by_id, authorize_row, authorize_guest_payment,
}

-- the rows with one of them written back
abbrev pub put_row : OrderRow → List OrderRow → List OrderRow
put_row r [] = []
put_row r (s ∷ ss) = if s.order.id == r.order.id then r ∷ ss else s ∷ put_row r ss

found_again :
    (id : ℕ) (r : OrderRow) (rows : List OrderRow) (s : OrderRow)
    → r.order.id ≡ id
    → get_by_id id rows ≡ some s
    → get_by_id id (put_row r rows) ≡ some r
found_again id r [] s e h = absurd (ground arith)
found_again id r (x ∷ xs) s e h = ground (arith, found_again id r xs s e)

issued-row :
    (sha256 : Text → ℕ) (token issued : Text) (row after : OrderRow)
    → issue_guest_payment_token sha256 token row ≡ (some issued, after)
    → (after.order ≡ row.order)
      × (after.created_at ≡ row.created_at)
      × (row.order.user_id ≡ none)
      × (after.payment_token_hash ≡ some (sha256 token))
      × (token ≡ issued)
unfolding issue_guest_payment_token
issued-row sha256 token issued row after h =
    (ground arith, ground arith, ground arith, ground arith, ground arith)

authorize_row_iff :
    (sha256 : Text → ℕ) (now timeout_minutes : ℕ) (token : Text) (row : OrderRow) (hash : ℕ)
    (o : Order) (created : ℕ)
    → row.order.user_id ≡ none
    → row.payment_token_hash ≡ some hash
    → row.order ≡ o
    → row.created_at ≡ created
    → (authorize_row sha256 now timeout_minutes token row ≡ ok o)
      ↔ ((hash ≡ sha256 token) × (now - created ≤ timeout_minutes * 60))
unfolding authorize_row
authorize_row_iff sha256 now timeout_minutes token row hash o created eu eh eo ec =
    (λ h. (ground arith, ground arith), λ (a, b). ground arith)

-- If a capability is issued for an order and stored, then a token is let through to pay that order
-- exactly when it has the hash of the one issued and the order is not older than the timeout: an earlier
-- capability stops working.
pub issue_guest_payment_token_iff :
    (sha256 : Text → ℕ) (token issued : Text) (rows : List OrderRow) (row after : OrderRow)
    (now timeout_minutes : ℕ) (other : Text)
    → get_by_id row.order.id rows ≡ some row
    → issue_guest_payment_token sha256 token row ≡ (some issued, after)
    → (authorize_guest_payment sha256 now timeout_minutes (put_row after rows) row.order.id other
        ≡ ok row.order)
      ↔ ((sha256 issued ≡ sha256 other) × (now - row.created_at ≤ timeout_minutes * 60))
unfolding authorize_guest_payment
issue_guest_payment_token_iff sha256 token issued rows row after now timeout_minutes other found h =
    let (eo, ec, eu, eh, et) = issued-row sha256 token issued row after h in
    let stored = found_again row.order.id after rows row (ap (λ o. o.id) eo) found in
    let iff =
      authorize_row_iff sha256 now timeout_minutes other after (sha256 token) row.order
        row.created_at (ap (λ o. o.user_id) eo ∙ eu) eh eo ec in
    let run : authorize_guest_payment sha256 now timeout_minutes (put_row after rows) row.order.id
          other
        ≡ authorize_row sha256 now timeout_minutes other after =
      rw (stored, authorize_guest_payment) refl in
    rw run (rw et at iff)
