-- ===== src/Flags.antt =====
-- dbt_common/behavior_flags.py: flags that fire an event when a behavior is turned off.
pub mod Behavior
pub mod Firing
pub mod Refusal
mod Tests
