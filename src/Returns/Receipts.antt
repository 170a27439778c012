-- ===== src/Returns/Receipts.antt =====
-- The arrival of a return: `receive` with the stock that goes back, and `refund`
-- (app/modules/returns/services/return_service.py).
use fast_api_e_commerce.Prelude.{
  ℕ, ◌+◌, Bool, true, false, not, ◌&&◌, Option, none, some, List, [], ◌∷◌, ◌++◌, Result, ok, err,
  ◌>>=◌, ◌>>◌, raise_if, ltb, leb, ◌==◌, if◌then◌else◌, any, find, is_some, get_or, pos,
}
use fast_api_e_commerce.Orders.Types.{Order, OrderItem}
use fast_api_e_commerce.Products.{
  Product, Variant, Table, Deltas, add_delta, update, adjust_stock_many, adjust_variant_stock_many,
}
use fast_api_e_commerce.Lifecycle.Refunds.{request_refund}
use fast_api_e_commerce.Returns.{
  ReturnStatus, approved, received, closed, refunded, ReturnItem, ReturnRequest, Store, ReturnError,
  receipt_invalid, not_full, refund_refused, integrity_error, wrong_state, same_return_status,
  lock_order, get_return, save_return,
}

-- a line of `ReturnReceive`
pub record Arrival : Type 0 where
  pub order_item_id : ℕ
  pub received_quantity : ℕ
  pub restock : Bool

abbrev pub arrival_of : ℕ → List Arrival → Option Arrival
arrival_of line = find (λ a. a.order_item_id == line)

abbrev item_of : ℕ → List ReturnItem → Option ReturnItem
item_of line = find (λ i. i.order_item_id == line)

-- the lines of the payload are those of the return, once each
unfoldable pub once_each : List Arrival → Bool
once_each [] = true
once_each (a ∷ as_) = not (is_some (arrival_of a.order_item_id as_)) && once_each as_

unfoldable pub all_given : List Arrival → List ReturnItem → Bool
all_given arrivals [] = true
all_given arrivals (i ∷ is) = is_some (arrival_of i.order_item_id arrivals) && all_given arrivals is

-- no more arrived than was requested, and what goes back to stock did arrive
unfoldable pub check_arrivals : List ReturnItem → List Arrival → Result ReturnError (Unit {0})
check_arrivals items [] = ok tt
check_arrivals items (a ∷ rest) = elim (item_of a.order_item_id items) [
  | none ↦ err receipt_invalid
  | some i ↦ do
    raise_if (ltb i.quantity a.received_quantity) receipt_invalid
    raise_if (a.restock && a.received_quantity == 0) receipt_invalid
    check_arrivals items rest
]

unfoldable pub with_arrivals : List Arrival → List ReturnItem → List ReturnItem
with_arrivals arrivals [] = []
with_arrivals arrivals (i ∷ is) =
    elim (arrival_of i.order_item_id arrivals) [
      | none ↦ i
      | some a ↦ record i { received_quantity = some a.received_quantity; restock = a.restock }
    ]
    ∷ with_arrivals arrivals is

abbrev pub amount_in : ReturnItem → ℕ
amount_in i = get_or i.received_quantity 0

abbrev is_event : ℕ → ℕ → List (ℕ × ℕ) → Bool
is_event line id = any (λ e. e.0 == line && e.1 == id)

-- the items that go back to stock, whose event is not recorded yet
unfoldable pub recorded : ℕ → List (ℕ × ℕ) → List ReturnItem → List ReturnItem
recorded id events [] = []
recorded id events (i ∷ is) =
    if i.restock && ltb 0 (amount_in i) && not (is_event i.order_item_id id events)
    then i ∷ recorded id ((i.order_item_id, id) ∷ events) is
    else recorded id events is

unfoldable pub events_of : ℕ → List ReturnItem → List (ℕ × ℕ)
events_of id [] = []
events_of id (i ∷ is) = (i.order_item_id, id) ∷ events_of id is

-- the trigger of the events: the order's lines, none restocked beyond what was bought
unfoldable pub restock_lines :
    List ReturnItem → List OrderItem → Result ReturnError (List OrderItem)
restock_lines fresh [] = ok []
restock_lines fresh (i ∷ is) = do
  rest ← restock_lines fresh is
  elim (item_of i.id fresh) [
    | none ↦ ok (i ∷ rest)
    | some r ↦
        if leb (i.restocked_quantity + amount_in r) i.quantity
        then ok (record i { restocked_quantity = i.restocked_quantity + amount_in r } ∷ rest)
        else err receipt_invalid
  ]

abbrev pub line_of : ℕ → List OrderItem → Option OrderItem
line_of id = find (λ i. i.id == id)

-- `stock_back`
unfoldable pub stock_back : Table Product → List OrderItem → List ReturnItem → Deltas → Deltas
unfolding add_delta
stock_back products lines [] acc = acc
stock_back products lines (i ∷ is) acc =
    stock_back products lines is (elim (line_of i.order_item_id lines) [
      | none ↦ acc
      | some l ↦
          if not (is_some l.variant_id) && is_some (products l.product_id)
          then add_delta l.product_id (pos (amount_in i)) acc
          else acc
    ])

-- `variant_back`
unfoldable pub variant_back : Table Variant → List OrderItem → List ReturnItem → Deltas → Deltas
unfolding add_delta
variant_back variants lines [] acc = acc
variant_back variants lines (i ∷ is) acc =
    variant_back variants lines is (elim (line_of i.order_item_id lines) [
      | none ↦ acc
      | some l ↦ elim l.variant_id [
        | none ↦ acc
        | some v ↦ if is_some (variants v) then add_delta v (pos (amount_in i)) acc else acc
      ]
    ])

unfoldable pub mark_restocked : List ReturnItem → List ReturnItem → List ReturnItem
mark_restocked fresh [] = []
mark_restocked fresh (i ∷ is) =
    (if is_some (item_of i.order_item_id fresh)
      then record i { restocked_quantity = amount_in i }
      else i)
    ∷ mark_restocked fresh is

abbrev pub or_integrity : {A : Type 0} → Option A → Result ReturnError A
or_integrity none = err integrity_error
or_integrity (some a) = ok a

-- `_restock`, for the items with what arrived of them: the items and the rows
unfoldable pub restock :
    Order → ℕ → List ReturnItem → Store → Result ReturnError (List ReturnItem × Store)
unfolding recorded events_of restock_lines stock_back variant_back mark_restocked adjust_stock_many
    adjust_variant_stock_many
restock o id items s = do
  let fresh = recorded id s.restock_events items
  lines ← restock_lines fresh o.items
  products ←
      or_integrity (adjust_stock_many s.db.products (stock_back s.db.products o.items fresh []))
  variants ←
      or_integrity
        (adjust_variant_stock_many s.db.variants (variant_back s.db.variants o.items fresh []))
  ok (
    mark_restocked fresh items,
    record s {
      restock_events = events_of id fresh ++ s.restock_events;
      db = record s.db {
        products = products;
        variants = variants;
        orders = update s.db.orders o.id (record o { items = lines });
      };
    },
  )

-- `receive`
unfoldable pub receive : ℕ → List Arrival → Store → Result ReturnError Store
unfolding restock once_each all_given check_arrivals with_arrivals
receive id arrivals s = do
  r ← get_return id s
  raise_if (not (same_return_status r.status approved)) wrong_state
  raise_if (not (once_each arrivals && all_given arrivals r.items)) receipt_invalid
  check_arrivals r.items arrivals
  o ← lock_order r.order_id s
  done ← restock o r.id (with_arrivals arrivals r.items) s
  ok (save_return (record r { status = received; items = done.0 }) done.1)

-- what came back of a line of an order, in the returns that arrived
abbrev is_arrived : ReturnStatus → Bool
is_arrived received = true
is_arrived closed = true
is_arrived _ = false

unfoldable pub arrived_in : ℕ → List ReturnItem → ℕ
arrived_in line [] = 0
arrived_in line (i ∷ is) = (if i.order_item_id == line then amount_in i else 0) + arrived_in line is

unfoldable pub came_back : ℕ → ℕ → List ReturnRequest → ℕ
unfolding arrived_in
came_back order_id line [] = 0
came_back order_id line (r ∷ rs) =
    (if r.order_id == order_id && is_arrived r.status then arrived_in line r.items else 0)
    + came_back order_id line rs

-- `refund`
unfoldable pub refund : ℕ → Store → Result ReturnError Store
unfolding came_back request_refund
refund id s = do
  r ← get_return id s
  raise_if (not (same_return_status r.status received)) wrong_state
  o ← lock_order r.order_id s
  raise_if (any (λ i. ltb (came_back o.id i.id s.returns) i.quantity) o.items) not_full
  elim (request_refund o.id none false s.db) [
    | err _ ↦ err refund_refused
    | ok q ↦ ok (
        save_return
          (record r { status = closed; resolution = some refunded; refund_id = some q.0.0.id })
          (record s { db = q.1 }))
  ]
