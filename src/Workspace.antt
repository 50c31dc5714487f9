-- ===== src/Workspace.antt =====
-- internal/candidateworkspace: the edits and the runs of a candidate.
mod Unidiff
mod Run
mod Diff
pub mod Counts
pub mod Recorded
pub mod Capped
pub mod Ordering
unfoldable pub use Unidiff.*
unfoldable pub use Run.*
unfoldable pub use Diff.*
