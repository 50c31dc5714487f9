-- ===== src/Scoring.antt =====
-- internal/scoring: the service that scores a session and the consumer that drives it.
mod Scorer
mod Consumer
pub mod Idempotence
pub mod Contents
pub mod Retries
pub mod Backoffs
unfoldable pub use Scorer.*
unfoldable pub use Consumer.*
