-- ===== src/Tests.antt =====
-- The theorems applied to concrete inputs, and runs of the operations.
mod Scenario
mod States
mod Policies
mod Approvals
mod Claims
mod Executions
mod Rollbacks
mod Alerts
mod Triages
mod Verifications
mod Toys
mod Accounts
mod Remedies
