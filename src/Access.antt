-- ===== src/Access.antt =====
-- internal/auth, internal/rbac and the session states of internal/domain: who makes a request, and
-- what they may do.
mod Policy
mod Bearer
mod Resolver
pub mod Privilege
pub mod Tokens
pub mod Guard
pub mod Lifecycle
unfoldable pub use Policy.*
unfoldable pub use Bearer.*
unfoldable pub use Resolver.*
