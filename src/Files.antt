-- ===== src/Files.antt =====
-- dbt_common/clients/system.py: paths, files, archives and processes.
pub mod Paths
pub mod Archive
pub mod Commands
pub mod Store
mod Tests
