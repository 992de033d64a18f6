-- ===== src/Storage.antt =====
-- internal/storage/memory.go: the store in memory. Its mutex makes each operation one step, so an
-- operation is a function of the store; `none` is ErrNotFound.
mod Store
pub mod Incidents
pub mod Actions
pub mod Approvals
pub mod Executions
pub mod Outcomes
pub mod Accounts
pub mod Queries
unfoldable pub use Store.*
