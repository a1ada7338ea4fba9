-- ===== src/ContextVars.antt =====
-- dbt_common/events/contextvars.py: the context variables of log messages and of tasks.
pub mod Variables
pub mod Restoring
mod Tests
