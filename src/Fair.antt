-- ===== src/Fair.antt =====
-- server/crates/sn-fair: two-class weighted max-min fair sharing of a capacity.
-- `Types` has types.rs, error.rs and the data types of fair.rs; `MaxMin` has the helper
-- `weighted_max_min`; `Allocate` has `allocate`.
pub mod Types
pub mod MaxMin
pub mod Allocate
mod Tests
