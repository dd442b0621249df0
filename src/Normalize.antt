-- ===== src/Normalize.antt =====
-- plancontract/normalize.go: from a raw query plan to the evaluator's operators.
pub mod Classify
pub mod Walk
pub mod Operators
mod Tests
