-- ===== src/EventStore.antt =====
-- internal/store/postgres: the transactions that record the events of an interview, and the relay
-- of the outbox (internal/outbox).
mod Tables
mod Outbox
mod Sequence
mod Sessions
mod Scores
pub mod Trace
pub mod Allocation
pub mod Numbers
pub mod Written
pub mod Numbering
pub mod Transactions
pub mod Relay
pub mod Delivery
pub mod Once
pub mod Invites
pub mod Diffs
unfoldable pub use Tables.*
unfoldable pub use Outbox.*
unfoldable pub use Sequence.*
unfoldable pub use Sessions.*
unfoldable pub use Scores.*
