-- ===== src/Orders/Access.antt =====
-- Who may see and pay an order: the guest payment capability and the lookups of
-- app/modules/orders/services/order_service.py. SHA-256 and the random token are parameters.
pub mod Capability
pub mod Examples
use fast_api_e_commerce.Prelude.{
  ℕ, ◌-◌, ◌*◌, Bool, true, false, not, ◌&&◌, ◌||◌, Option, none, some, List, [], ◌∷◌, Result, ok,
  err, ◌>>=◌, ◌>>◌, raise_if, ltb, ◌==◌, if◌then◌else◌, find, is_some, same_key,
}
use fast_api_e_commerce.Orders.Types.{Order, OrderStatus, same_status, Text}

-- an order's row with the two columns that only these calls read
pub record OrderRow : Type 0 where
  pub order : Order
  pub payment_token_hash : Option ℕ
  pub created_at : ℕ

pub data AccessError : Type 0 where
  order_not_found order_access_forbidden : AccessError

-- the token that is handed out, and the row
unfoldable pub issue_guest_payment_token : (Text → ℕ) → Text → OrderRow → Option Text × OrderRow
issue_guest_payment_token sha256 token row =
    if is_some row.order.user_id || not (same_status row.order.status OrderStatus.pending)
    then (none, row)
    else (some token, record row { payment_token_hash = some (sha256 token) })

abbrev pub get_by_id : ℕ → List OrderRow → Option OrderRow
get_by_id id = find (λ r. r.order.id == id)

-- a missing hash is the hash of nothing
abbrev pub has_hash : Option ℕ → ℕ → Bool
has_hash none hash = false
has_hash (some h) hash = h == hash

unfoldable pub authorize_row : (Text → ℕ) → ℕ → ℕ → Text → OrderRow → Result AccessError Order
authorize_row sha256 now timeout_minutes token row = do
  raise_if (is_some row.order.user_id || not (is_some row.payment_token_hash)) order_not_found
  raise_if (not (has_hash row.payment_token_hash (sha256 token))) order_not_found
  raise_if (ltb (timeout_minutes * 60) (now - row.created_at)) order_not_found
  ok row.order

unfoldable pub authorize_guest_payment :
    (Text → ℕ) → ℕ → ℕ → List OrderRow → ℕ → Text → Result AccessError Order
authorize_guest_payment sha256 now timeout_minutes rows id token = elim (get_by_id id rows) [
  | none ↦ err order_not_found
  | some row ↦ authorize_row sha256 now timeout_minutes token row
]

unfoldable pub get_guest_order : List OrderRow → ℕ → ℕ → Result AccessError Order
get_guest_order rows id token =
    elim (find (λ r. r.order.id == id && same_key r.order.guest_token (some token)) rows) [
      | none ↦ err order_not_found
      | some row ↦ ok row.order
    ]

unfoldable pub get_order : List OrderRow → ℕ → ℕ → Bool → Result AccessError Order
get_order rows id user_id is_admin = elim (get_by_id id rows) [
  | none ↦ err order_not_found
  | some row ↦ do
    raise_if (not is_admin && not (same_key row.order.user_id (some user_id)))
        order_access_forbidden
    ok row.order
]
