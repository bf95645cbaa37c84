-- ===== src/Pass.antt =====
-- internal/syncer/pass.go: the working state of one sync of one TenantCluster.
mod Refs
pub mod Listing
pub mod Limit
pub mod Gather
pub mod Apply
pub mod Prune
pub mod Finalizers
pub mod WriteBack
pub mod GuestClass
unfoldable pub use Refs.*
