-- ===== src/WarnError.antt =====
-- `IncludeExclude`, `WarnErrorOptions` and `WarnErrorOptionsV2` of dbt_common/helper_types.py.
pub mod Precedence
pub mod Options
mod Tests
