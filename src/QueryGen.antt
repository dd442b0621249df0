-- ===== src/QueryGen.antt =====
-- internal/querygen and the type conversions that it uses: result fields, and writes with their
-- columns.
pub mod Types
pub mod Fields
pub mod Columns
pub mod Writes
pub mod Config
pub mod Required
mod Tests
