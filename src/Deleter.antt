-- ===== src/Deleter.antt =====
-- The delete workers of src/deleter.
pub mod World
pub mod Backend
pub mod Format
pub mod Attributes
pub mod Worker
pub mod Workers
pub mod Selected
pub mod Refinement
