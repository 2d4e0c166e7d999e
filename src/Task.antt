-- ===== src/Task.antt =====
-- crates/task/state/src: what a log says of its task, and the snapshots of a task.
pub mod Vocabulary
pub mod History
pub mod Snapshot
mod Tests
