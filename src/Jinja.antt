-- ===== src/Jinja.antt =====
-- dbt_common/clients/_jinja_blocks.py: the tags of a template, and its top-level blocks.
pub mod Patterns
pub mod Matches
pub mod Tags
pub mod Blocks
pub mod Reassembly
pub mod Cache
pub mod Progress
pub mod Rounds
mod Tests
