-- ===== src/PlanContract.antt =====
-- The package plancontract: contracts over the operators of query plans.
pub mod Plan
pub mod Report
pub mod Families
pub mod Target
pub mod Matching
pub mod Cel
pub mod Remediation
pub mod Contract
pub mod Predicates
pub mod Compile
pub mod Rules
pub mod Evaluate
pub mod Summary
mod Samples
mod Tests
mod QueryTests
