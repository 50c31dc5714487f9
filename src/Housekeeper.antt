-- ===== src/Housekeeper.antt =====
-- internal/housekeeper and its store in internal/store/postgres: the purge of interviews.
mod Stores
mod Purge
pub mod Others
pub mod Protected
pub mod Cleared
pub mod Erased
pub mod Retries
unfoldable pub use Stores.*
unfoldable pub use Purge.*
