-- ===== src/Filters.antt =====
-- The filter stages of src/filters.
pub mod Predicates
pub mod Loop
pub mod Chain
