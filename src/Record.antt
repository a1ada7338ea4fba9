-- ===== src/Record.antt =====
-- dbt_common/record.py: the recorder of calls, and the replay of a recording.
pub mod Recorder
pub mod Replay
pub mod Newest
pub mod Written
pub mod Threads
pub mod Tally
pub mod Others
pub mod Orderly
pub mod Interleaved
pub mod Completion
pub mod Wrapper
mod Tests
