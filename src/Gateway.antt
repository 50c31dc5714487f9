-- ===== src/Gateway.antt =====
-- internal/aigateway and internal/aigateway/byok: completions, and the companies' own keys.
mod Keys
mod Request
mod Anthropic
mod Complete
mod Envelope
mod Cache
mod Resolve
pub mod Entries
pub mod Custody
pub mod Handing
pub mod Loading
pub mod Interleaved
pub mod Performed
pub mod Lifetimes
pub mod Accounted
pub mod Recorded
pub mod Sealed
pub mod Validity
unfoldable pub use Keys.*
unfoldable pub use Request.*
unfoldable pub use Anthropic.*
unfoldable pub use Complete.*
unfoldable pub use Envelope.*
unfoldable pub use Cache.*
unfoldable pub use Resolve.*
