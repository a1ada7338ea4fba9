-- ===== src/Environment.antt =====
-- What the program reads from the environment: dbt_common/context.py, and the settings of
-- dbt_common/record.py.
pub mod Invocation
pub mod Recording
mod Tests
