-- ===== src/Fair.antt =====
-- kernel/core/sched/sched_fair.c: the fair scheduler.
pub mod Load
pub mod Share
pub mod Timeline
pub mod Order
pub mod Sorted
pub mod Runtime
pub mod Clock
pub mod Pick
pub mod Least
pub mod Queue
pub mod Tasks
pub mod Numbers
pub mod Kept
pub mod Walks
pub mod Counts
pub mod Wake
pub mod Asked
mod Samples
mod GroupTests
mod WakeTests
mod Tests
