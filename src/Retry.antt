-- ===== src/Retry.antt =====
-- dbt_common/utils/connection.py: calls that are tried again.
pub mod Connection
pub mod Attempts
mod Tests
