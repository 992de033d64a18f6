-- ===== src/Verification.antt =====
-- internal/verification/service.go: the comparison of a service before and after an execution, and
-- what becomes of the incident by its result.
pub mod Checks
pub mod Observe
pub mod Evaluate
pub mod Conclude
pub mod Verdicts
pub mod Stable
pub mod Confirmed
pub mod Frames
pub mod Steps
pub mod Places
pub mod Outcomes
pub mod Composed
