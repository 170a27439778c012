-- ===== src/Lib.antt =====
-- The verification library of FastAPI-E-commerce: an online shop with a FastAPI server, whose
-- application is under app/. A module per part follows the code's own parts.
--
-- Prelude: Boolean tests, results of calls that raise, lists and signed integers on native numbers.
--
-- Tax models app/modules/tax/gst_calc.py. Tax/Allocate is `_allocate`, with the 28 digits of Python's
-- Decimal written out; Tax/Gst is the types, `half_up`, `_rates` and `_slab_tax`; Tax/Policy is the two
-- rounding policies inside `calculate`; Tax/Invoice is `calculate`. Amounts are natural numbers of
-- paise, rates are thousandths of a percent, and a ValueError is `none`. Amounts are bounded by 10^14
-- where Decimal's precision matters: above it a quotient need not be exact to the paisa.
--
-- Tax/States is the table of states of gst_states.py, and Tax/Engine the engines and readiness checks of
-- engine.py beside it, over the tax master as lists of rows; Tax/Engine/Ready says what they rest on.
--
-- Coupons models app/modules/coupons/services/discount.py and the checks of coupon_service.py that
-- checkout makes; an exception is an error value. Money models the currency table of app/core/money.py
-- and the amounts sent to the payment provider. Orders/Types and Products are the rows of orders,
-- products and variants, with the bulk stock adjustments of product_repository.py.
--
-- Cart models the operations of app/modules/cart/services/cart_service.py on the carts and what
-- cart_repository.py does for them; Cart/View is `line_state` and `cart_digest`. Cart/Lines, Cart/Merge,
-- Cart/Stocked, Cart/Steps and Cart/Runs are about lines, the merge at login, what is added, and
-- sequences of calls.
--
-- Orders models `checkout` and `quote` of app/modules/orders/services/order_service.py. Orders/Shop is
-- the rows, the settings and the request; Orders/Sell is the loop over the cart's lines, with its
-- accumulators as functions of what is sold; Orders/Price is shipping, coupon, tax and the address;
-- Orders/Checkout is `checkout`, Orders/Submit what the route of app/modules/orders/api/router.py
-- commits of it, Orders/Quote is `quote`, and Orders/Access the guest payment capability and who may
-- see an order. `checkout_new` is a checkout whose idempotency key has no order yet.
-- Orders/Placed inverts a checkout that returned, and Orders/Stock, Orders/Totals, Orders/Replay,
-- Orders/Once, Orders/Refreshed and Orders/Quote/Agrees are about it. SHA-256, the policy of
-- delivery, the time and the new order's id are parameters. The INSERT of an order raises where an
-- amount is above 2147483647, as its columns are of 4 bytes; the currency that a new store is given
-- is a row of Orders/Shop. The snapshots, names and option labels of an order, and the ledger of
-- stock movements, are left out.
--
-- Lifecycle models app/modules/payments/services/lifecycle_service.py, every operation of it, over the
-- rows that it reads and writes (Lifecycle/Db). An operation is a function from the rows to the rows
-- and its result, or to an error, with which its transaction is rolled back. Lifecycle/Documents is
-- `reconcile` and the issuing of invoices, Lifecycle/Restock is `_restock_once`, Lifecycle/Status is
-- `mark_paid`, `fulfil_order`, `admin_change_status` and `cancel_order`, Lifecycle/Refunds is the
-- request and the submission of refunds, Lifecycle/Reports is what a provider reports of them, and
-- Lifecycle/Disputes is disputes and reconciliation records. What the payment providers answer, and
-- what other transactions commit between the phases of a cancellation, are parameters. Lifecycle/Run
-- is any sequence of these operations; Lifecycle/Transitions and Lifecycle/Histories follow the status
-- history through it. Lifecycle/Guards is the row triggers of lifecycle_guard.py and provider_guard.py
-- beside it in app/modules/payments/models, and Lifecycle/Guarded is about the updates that they let
-- stand. Lifecycle/Safety, Lifecycle/Confirmed, Lifecycle/Once and
-- Lifecycle/Disputed are about single operations.
--
-- Payments models app/modules/payments/services/payment_service.py on the lifecycle's rows. Payments/Rows
-- is the rows of webhooks and the repository's methods on them, Payments/Events the handlers of events,
-- Payments/Webhooks the verification and the claim of an event and what is recorded when its handling
-- raised, Payments/Recovery `reprocess_deferred_events` of app/modules/payments/jobs.py, and
-- Payments/Start `create_payment_for_order`. The payment providers, the verification of signatures and
-- what other transactions commit during a call to a provider are parameters. Payments/History is any
-- sequence of deliveries, recoveries and transactions of the lifecycle; Payments/Claims and
-- Payments/Untouched are lemmas of Payments/Delivery, and Payments/Paid, Payments/Verified,
-- Payments/Counted, Payments/Bounded and Payments/Started are about a success, signatures, recovery
-- and the start. The calls that ask a provider to cancel an orphan intent are kept in the state.
--
-- Returns models app/modules/returns/services/return_service.py; Returns/Receipts is `receive`, with the
-- stock that goes back, and `refund`. Returns/Runs is any sequence of its calls, with any transactions
-- in between that take nothing from what was bought (a trigger keeps the lines of an order).
-- Returns/Changes and Returns/Received say what a call changes, Returns/Limits is about quantities, and
-- Returns/Given, Returns/Restocked and Returns/Arrived are about the stock.
--
-- Jobs models the queue of app/core/jobs/queue.py and the statements of worker.py beside it; Jobs/Claims
-- is any sequence of the workers' calls, and Jobs/Finished what happens in it to jobs that have ended.
--
-- Ids, references and hashes are numbers, as they are only compared; texts are lists of code points.
-- Loops are structural; the printing of a number has fuel, one more than the number, which is more than
-- it has digits. Row locks are not modelled: an operation's transaction is one step. An audit entry is
-- its action and its target.
--
-- Not modelled: the administration of products, coupons, the tax master and payment
-- configurations, the handlers of jobs but the recovery of events, shipments, reviews, accounts,
-- settings, and the HTTP and GraphQL layers.
pub mod Prelude
pub mod Tax
pub mod Orders
pub mod Cart
pub mod Coupons
pub mod Money
pub mod Products
pub mod Lifecycle
pub mod Payments
pub mod Returns
pub mod Jobs
