-- ===== src/Returns.antt =====
-- Customer returns: app/modules/returns/services/return_service.py over the rows of
-- app/modules/returns/models/return_request.py. An operation runs in a transaction: it returns the new
-- rows, or raises, and then what it wrote is rolled back. Comments, notes, times of decisions and the
-- audit log are left out, and so are the lists that are only read.
pub mod Receipts
pub mod Changes
pub mod Received
pub mod Runs
pub mod Limits
pub mod Given
pub mod Arrived
pub mod Restocked
pub mod Examples
use fast_api_e_commerce.Prelude.{
  ℕ, ◌+◌, ◌-◌, ◌*◌, Bool, true, false, not, ◌&&◌, ◌||◌, Option, none, some, List, [], ◌∷◌, Result,
  ok, err, ◌>>=◌, ◌>>◌, raise_if, ltb, leb, ◌==◌, if◌then◌else◌, any, find, select, length, map,
  is_some, same_key, get_or, pos,
}
use fast_api_e_commerce.Orders.Types.{Order, OrderItem, OrderStatus, same_status, fulfilled}
use fast_api_e_commerce.Products.{
  Product, Variant, Table, Deltas, add_delta, update, adjust_stock_many, adjust_variant_stock_many,
}
use fast_api_e_commerce.Lifecycle.Db.{Db}
use fast_api_e_commerce.Lifecycle.Refunds.{request_refund}

pub data ReturnStatus : Type 0 where
  requested approved rejected received closed cancelled : ReturnStatus

pub data Resolution : Type 0 where
  refunded refunded_outside replacement_sent no_refund : Resolution

-- `ReturnRequestItem`
pub record ReturnItem : Type 0 where
  pub order_item_id : ℕ
  pub quantity : ℕ
  pub received_quantity : Option ℕ
  pub restock : Bool
  pub restocked_quantity : ℕ

-- `ReturnRequest`
pub record ReturnRequest : Type 0 where
  pub id : ℕ
  pub order_id : ℕ
  pub user_id : ℕ
  pub status : ReturnStatus
  pub resolution : Option Resolution
  pub refund_id : Option ℕ
  pub items : List ReturnItem

-- The rows. `restock_events` are the lines and returns whose units went back into stock;
-- `window_start` is `_window_start` of an order, which reads its shipments and its history.
pub record Store : Type 0 where
  pub db : Db
  pub returns : List ReturnRequest
  pub restock_events : List (ℕ × ℕ)
  pub window_start : ℕ → ℕ

-- the setting `return_window_days`, and the time in seconds
pub record Env : Type 0 where
  pub return_window_days : ℕ
  pub now : ℕ

pub data ReturnError : Type 0 where
  order_not_found returns_disabled order_not_shipped window_closed nothing_returnable : ReturnError
  item_invalid quantity_exceeded invalid_payload return_not_found wrong_state : ReturnError
  receipt_invalid not_full refund_refused integrity_error : ReturnError

abbrev pub same_return_status : ReturnStatus → ReturnStatus → Bool
same_return_status requested requested = true
same_return_status approved approved = true
same_return_status rejected rejected = true
same_return_status received received = true
same_return_status closed closed = true
same_return_status cancelled cancelled = true
same_return_status _ _ = false

-- `COUNTED`
abbrev pub is_counted : ReturnStatus → Bool
is_counted rejected = false
is_counted cancelled = false
is_counted _ = true

abbrev pub quantity_of : ℕ → List ReturnItem → ℕ
quantity_of line [] = 0
quantity_of line (i ∷ is) =
    (if i.order_item_id == line then i.quantity else 0) + quantity_of line is

-- `_used`, of one line of an order
unfoldable pub used : ℕ → ℕ → List ReturnRequest → ℕ
used order_id line [] = 0
used order_id line (r ∷ rs) =
    (if r.order_id == order_id && is_counted r.status then quantity_of line r.items else 0)
    + used order_id line rs

-- what of a line may still be returned
abbrev pub returnable : ℕ → List ReturnRequest → OrderItem → ℕ
unfolding used
returnable order_id returns i = i.quantity - used order_id i.id returns

abbrev pub lock_order : ℕ → Store → Result ReturnError Order
lock_order id s = elim (s.db.orders id) [ none ↦ err order_not_found | some o ↦ ok o ]

-- `eligibility`: the reason why nothing can be returned, as `create` raises it
unfoldable pub check_eligibility : Env → Order → Store → Result ReturnError (Unit {0})
unfolding used
check_eligibility env o s = do
  raise_if (env.return_window_days == 0) returns_disabled
  raise_if (not (same_status o.status fulfilled)) order_not_shipped
  raise_if (ltb (s.window_start o.id + env.return_window_days * 86400) env.now) window_closed
  raise_if (not (any (λ i. ltb 0 (returnable o.id s.returns i)) o.items)) nothing_returnable
  ok tt

-- a line of `ReturnCreate`
pub record ReturnLine : Type 0 where
  pub order_item_id : ℕ
  pub quantity : ℕ

abbrev pub has_line : ℕ → List ReturnLine → Bool
has_line line = any (λ l. l.order_item_id == line)

-- the schema: each line once, and quantities from 1 to 1000
unfoldable pub are_valid : List ReturnLine → Bool
are_valid [] = true
are_valid (l ∷ ls) =
    leb 1 l.quantity && leb l.quantity 1000 && not (has_line l.order_item_id ls) && are_valid ls

-- the lines are the order's, and no more than is returnable
unfoldable pub check_lines : Order → Store → List ReturnLine → Result ReturnError (Unit {0})
unfolding used
check_lines o s [] = ok tt
check_lines o s (l ∷ ls) = elim (find (λ i. i.id == l.order_item_id) o.items) [
  | none ↦ err item_invalid
  | some i ↦
      raise_if (ltb (returnable o.id s.returns i) l.quantity) quantity_exceeded
      >> check_lines o s ls
]

abbrev pub new_item : ReturnLine → ReturnItem
new_item l = record {
  order_item_id = l.order_item_id;
  quantity = l.quantity;
  received_quantity = none;
  restock = false;
  restocked_quantity = 0;
}

abbrev pub new_return : ℕ → ℕ → ℕ → List ReturnLine → ReturnRequest
new_return new_id user_id order_id lines = record {
  id = new_id;
  order_id = order_id;
  user_id = user_id;
  status = requested;
  resolution = none;
  refund_id = none;
  items = map new_item lines;
}

-- `create`; the new id is a parameter
unfoldable pub create : Env → ℕ → ℕ → ℕ → List ReturnLine → Store → Result ReturnError Store
unfolding check_eligibility check_lines are_valid
create env new_id user_id order_id lines s = do
  raise_if (length lines == 0 || ltb 50 (length lines) || not (are_valid lines)) invalid_payload
  o ← lock_order order_id s
  raise_if (not (same_key o.user_id (some user_id))) order_not_found
  check_eligibility env o s
  check_lines o s lines
  ok (record s { returns = new_return new_id user_id o.id lines ∷ s.returns })

abbrev pub get_return : ℕ → Store → Result ReturnError ReturnRequest
get_return id s = elim (find (λ r. r.id == id) s.returns) [
  | none ↦ err return_not_found
  | some r ↦ ok r
]

abbrev pub put_return : ReturnRequest → List ReturnRequest → List ReturnRequest
put_return r [] = []
put_return r (q ∷ qs) = if q.id == r.id then r ∷ qs else q ∷ put_return r qs

abbrev pub save_return : ReturnRequest → Store → Store
save_return r s = record s { returns = put_return r s.returns }

-- `cancel`, by the customer
unfoldable pub cancel : ℕ → ℕ → Store → Result ReturnError Store
cancel user_id id s = do
  r ← get_return id s
  raise_if (not (r.user_id == user_id)) return_not_found
  raise_if (not (same_return_status r.status requested || same_return_status r.status approved))
      wrong_state
  ok (save_return (record r { status = cancelled }) s)

unfoldable pub approve : ℕ → Store → Result ReturnError Store
approve id s = do
  r ← get_return id s
  raise_if (not (same_return_status r.status requested)) wrong_state
  ok (save_return (record r { status = approved }) s)

unfoldable pub reject : ℕ → Store → Result ReturnError Store
reject id s = do
  r ← get_return id s
  raise_if (not (same_return_status r.status requested)) wrong_state
  ok (save_return (record r { status = rejected }) s)

unfoldable pub close : ℕ → Resolution → Store → Result ReturnError Store
close id resolution s = do
  r ← get_return id s
  raise_if (not (same_return_status r.status approved || same_return_status r.status received))
      wrong_state
  ok (save_return (record r { status = closed; resolution = some resolution }) s)
