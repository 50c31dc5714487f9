-- ===== src/Pipeline.antt =====
-- internal/eventlogwriter and internal/eventindexer: the consumers that store the events of a topic.
mod Batches
mod LogWriter
mod Indexer
pub mod Runs
pub mod Delivered
pub mod Redelivered
pub mod Indexed
unfoldable pub use Batches.*
unfoldable pub use LogWriter.*
unfoldable pub use Indexer.*
