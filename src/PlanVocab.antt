-- ===== src/PlanVocab.antt =====
-- plancontract/planvocab: the vocabulary of query plans, its observer and its matcher.
pub mod Shapes
pub mod Catalog
pub mod Inspect
pub mod Observer
pub mod Matcher
mod Tests
