-- ===== src/Semver.antt =====
-- dbt_common/semver.py: version specifiers, their comparison, ranges, and the choice of versions.
pub mod Text
pub mod Specifier
pub mod Order
pub mod Range
pub mod Parse
pub mod Precedence
pub mod Compatible
pub mod Best
pub mod Select
mod Tests
