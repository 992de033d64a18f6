-- ===== src/Execution.antt =====
-- internal/execution/service.go and rollback_service.go over the store in memory.
pub mod Checks
pub mod Retry
pub mod Run
pub mod Attempts
pub mod Validity
pub mod Authorize
pub mod Permission
pub mod Admission
pub mod Gate
pub mod Rollback
pub mod Recovery
pub mod Steps
pub mod Once
pub mod Exclusion
