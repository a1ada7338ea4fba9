-- ===== src/Exceptions.antt =====
-- dbt_common/exceptions/base.py: the exceptions of dbt, and the secrets that they hide.
pub mod Secrets
pub mod Hidden
pub mod Nodes
mod Tests
