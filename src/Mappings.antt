-- ===== src/Mappings.antt =====
-- dbt_common/utils/dict.py: merging dictionaries, and rendering nested values.
pub mod Merge
pub mod Render
pub mod Merging
pub mod Deep
pub mod Rendered
mod Tests
