-- ===== src/Live.antt =====
-- internal/livemonitor: the live streams of interviews.
mod Bus
mod Feed
pub mod Viewing
pub mod Sending
pub mod CatchUp
pub mod Rings
pub mod Isolation
unfoldable pub use Bus.*
unfoldable pub use Feed.*
