-- ===== src/Sse.antt =====
-- internal/sse: writing and reading streams of Server-Sent Events.
mod Stream
pub mod RoundTrip
unfoldable pub use Stream.*
