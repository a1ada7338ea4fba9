-- ===== src/Config.antt =====
-- dbt_common/contracts/config/base.py: configuration objects, and the merging of configurations.
pub mod Value
pub mod Merge
pub mod Fields
pub mod Rounds
pub mod Merging
pub mod Updating
mod Tests
