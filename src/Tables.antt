-- ===== src/Tables.antt =====
-- dbt_common/clients/agate_helper.py: tables, their column types, and merging them.
pub mod Columns
pub mod Rows
pub mod Admitted
pub mod Merged
pub mod Aligned
pub mod Flat
mod Tests
