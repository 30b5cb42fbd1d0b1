-- ===== src/Types.antt =====
-- The data model of the library: types/mod.rs, types/error.rs, types/event_callback.rs.
pub mod Object
pub mod Stats
pub mod Outcome
pub mod Error
pub mod Target
pub mod Secret
pub mod Event
pub mod Sdk
