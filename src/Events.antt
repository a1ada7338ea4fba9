-- ===== src/Events.antt =====
-- The events of dbt_common/events: the manager that fires and defers them, and the
-- callback that catches them.
pub mod Manager
pub mod Deferral
pub mod Catcher
mod Tests
