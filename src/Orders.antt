-- ===== src/Orders.antt =====
-- Orders: their rows and statuses, checkout and quote.
pub mod Types
pub mod Shop
pub mod Sell
pub mod Price
pub mod Checkout
pub mod Submit
pub mod Refreshed
pub mod Quote
pub mod Placed
pub mod Totals
pub mod Replay
pub mod Stock
pub mod Once
pub mod Examples
pub mod Access
