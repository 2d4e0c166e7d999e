-- ===== src/Core.antt =====
-- crates/core/core/src: the vocabulary that models, tools and sessions share.
pub mod Json
pub mod Model
pub mod Request
pub mod Response
pub mod Accumulator
pub mod Event
mod Tests
