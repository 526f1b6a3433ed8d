-- ===== src/Fetch/Exec.antt =====
-- server/crates/sn-fetch/src/exec.rs: the choice of an exit for a retry, one attempt to download a
-- segment, and the retry loop of one segment task.
pub mod Selector
pub mod Attempt
pub mod Retry
pub mod Assemble
mod Tests
