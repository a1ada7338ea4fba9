-- ===== src/Templates.antt =====
-- dbt_common/clients/jinja.py and dbt_common/utils/jinja.py: the code around the Jinja library.
pub mod Markers
pub mod Signature
pub mod Printed
pub mod Cache
pub mod Names
mod Tests
