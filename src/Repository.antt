-- ===== src/Repository.antt =====
-- src/task_repository.py: the queue of extraction tasks in two SQLite tables.
pub mod Status
pub mod Schema
pub mod Reads
pub mod Accept
pub mod Lease
pub mod Finish
pub mod Retention
pub mod Invariant
pub mod Steps
pub mod Answers
mod Tests
