-- ===== src/Pipeline.antt =====
-- The deduplication and filter phases together (dedup_phase.c, filter_phase.c and index/index.c): the
-- segments between the two, the index buffer, and the containers.
pub mod Buffered
pub mod Filtered
pub mod Promises
pub mod Cached
pub mod Seen
pub mod Looked
pub mod Queued
pub mod Behind
pub mod Deduplicated
pub mod Runs
pub mod Marked
pub mod Consistent
pub mod Correct
pub mod Example
mod Tests
use destor_lt.Prelude.{ℕ}
