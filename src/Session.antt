-- ===== src/Session.antt =====
-- crates/session: the canonical log of a session and the coordinator that alone extends it.
pub mod Vocabulary
pub mod Log
pub mod Coordinator
mod Tests
