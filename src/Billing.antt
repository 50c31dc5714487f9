-- ===== src/Billing.antt =====
-- internal/billing: pricing of usage, credits, invoice totals, the draft store and the close run.
-- Amounts are int64 cents: ℤ with the wrap-around of `add64`, `sub64`, `mul64`. A time is its
-- count of nanoseconds, and a UUID its 128-bit value, which its text orders alike. The text of a
-- line is kept as its format with the arguments.
mod Pricing
mod Credits
mod Totals
mod Store
mod Close
pub mod Rounding
pub mod Spending
pub mod Charges
pub mod InvoiceTotal
pub mod Order
pub mod Ledger
pub mod Solvency
pub mod Recompute
pub mod Closing
unfoldable pub use Pricing.*
unfoldable pub use Credits.*
unfoldable pub use Totals.*
unfoldable pub use Store.*
unfoldable pub use Close.*
