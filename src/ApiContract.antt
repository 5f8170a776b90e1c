-- ===== src/ApiContract.antt =====
-- The API contract engine (scripts/api-contract, and the policy of checks/api-contract.ts).
pub mod Evidence
pub mod Levels
pub mod Semver
pub mod Changesets
pub mod Members
pub mod Classifier
pub mod Drift
pub mod Check
pub mod Policy
mod Tests
