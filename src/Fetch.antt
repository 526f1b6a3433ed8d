-- ===== src/Fetch.antt =====
-- server/crates/sn-fetch: download of a file in byte-range segments over several exits.
pub mod Types
pub mod Plan
pub mod Error
pub mod Exec
mod Tests
