-- ===== src/Tax.antt =====
-- Tax: how paise are spread, and the GST arithmetic of app/modules/tax/gst_calc.py.
pub mod Allocate
pub mod Gst
pub mod Policy
pub mod Invoice
pub mod States
pub mod Engine
pub mod Examples
