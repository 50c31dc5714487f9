-- ===== src/Sandbox.antt =====
-- internal/sandbox: the execution of untrusted code.
mod Paths
mod Spec
mod Container
pub mod Output
pub mod Contained
pub mod Reported
pub mod Elements
pub mod Inside
pub mod Runnable
unfoldable pub use Paths.*
unfoldable pub use Spec.*
unfoldable pub use Container.*
