-- ===== src/Returns/Examples.antt =====
-- Returns of the shop of the lifecycle's examples: an order of two mugs that was delivered.
use fast_api_e_commerce.Prelude.{
  ℕ, true, Option, none, some, List, [], ◌∷◌, Result, ok, err, ◌≡◌, refl, arith, ◌==◌,
  if◌then◌else◌,
}
use fast_api_e_commerce.Orders.Types.{Order, fulfilled}
use fast_api_e_commerce.Products.{Product}
use fast_api_e_commerce.Lifecycle.Examples.{shop, pending_order}
use fast_api_e_commerce.Returns.{
  ReturnError, used, approved, cancelled, ReturnRequest, ReturnLine, Store, Env, new_return, create,
  approve, cancel,
}
use fast_api_e_commerce.Returns.Receipts.{Arrival, receive}
use fast_api_e_commerce.Returns.Changes.{IsKeyed}
use fast_api_e_commerce.Returns.Runs.{
  Run, start, then_create, then_approve, then_cancel, IsStill, Run-IsStill,
}
use fast_api_e_commerce.Returns.Limits.{IsWithin, Run-IsWithin}
use fast_api_e_commerce.Returns.Restocked.{StockBack}
use fast_api_e_commerce.Returns.Arrived.{units_back, receive-StockBack}

abbrev delivered : Order
delivered = record pending_order { status = fulfilled }

abbrev store : Store
store = record {
  db = record shop { orders = λ i. if i == 1 then some delivered else none };
  returns = [];
  restock_events = [];
  window_start = λ _. 0;
}

abbrev env : Env
env = record { return_window_days = 30; now = 86400 }

abbrev one_mug : List ReturnLine
one_mug = record { order_item_id = 1; quantity = 1 } ∷ []

abbrev asked : Store
asked = record store { returns = new_return 7 5 1 one_mug ∷ [] }

abbrev agreed_return : ReturnRequest
agreed_return = record (new_return 7 5 1 one_mug) { status = approved }

abbrev agreed : Store
agreed = record store { returns = agreed_return ∷ [] }

is_keyed : IsKeyed store.db
is_keyed id o h = ground arith

abbrev steps : Run store agreed
unfolding create approve
steps = then_approve 7 (then_create {c = asked} env 7 5 1 one_mug refl start refl) refl

none_asked : IsWithin store
unfolding used
none_asked order_id line = omega arith

Run-IsWithin_example : IsWithin agreed
Run-IsWithin_example = Run-IsWithin is_keyed none_asked steps

abbrev withdrawn : Store
withdrawn = record store { returns = record (new_return 7 5 1 one_mug) { status = cancelled } ∷ [] }

Run-IsStill_example : IsStill 7 (new_return 7 5 1 one_mug) withdrawn
unfolding cancel
Run-IsStill_example =
    Run-IsStill 7 (new_return 7 5 1 one_mug) {a = asked} refl is_keyed (then_cancel 5 7 start refl)

abbrev arrivals : List Arrival
arrivals = record { order_item_id = 1; received_quantity = 1; restock = true } ∷ []

abbrev or_agreed : Result ReturnError Store → Store
or_agreed (ok s) = s
or_agreed (err _) = agreed

abbrev arrived : Store
unfolding receive
arrived = or_agreed (receive 7 arrivals agreed)

receive-StockBack_example :
    (agreed_return.status ≡ approved)
    × (o : Order) × (agreed.db.orders 1 ≡ some o)
    × StockBack (λ test. units_back test o.items [] 7 arrivals agreed_return.items) agreed arrived
unfolding receive
receive-StockBack_example =
    receive-StockBack 7 arrivals agreed arrived agreed_return refl (refl, tt) refl

abbrev stock_of : Option Product → ℕ
stock_of none = 0
stock_of (some p) = p.stock

-- the shop had three mugs
arrived_mugs : stock_of (arrived.db.products 1) ≡ 4
unfolding receive
arrived_mugs = refl
