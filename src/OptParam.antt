-- ===== src/OptParam.antt =====
-- internal/optparam: optional query parameters that drive the generation of SQL variants.
pub mod Param
pub mod Markers
pub mod NullIsNull
pub mod Template
pub mod Compose
pub mod Enumerate
pub mod Verify
pub mod Plan
pub mod Fields
mod Tests
