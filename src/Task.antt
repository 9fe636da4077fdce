-- ===== src/Task.antt =====
-- kernel/core/sched/sched.c and kernel/include/sched.h: tasks, from `alloc_task_struct` to the last
-- `put_task_struct`.
pub mod Fields
pub mod Outside
pub mod New
pub mod Life
pub mod Fork
pub mod Allocated
pub mod Copy
pub mod Refs
pub mod Weights
pub mod Forked
pub mod Samples
mod Tests
