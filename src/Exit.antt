-- ===== src/Exit.antt =====
-- server/crates/sn-exit: which origins and sources an exit serves, the quota of its neighbours,
-- and how it reads the head of a request.
pub mod Address
pub mod Ledger
pub mod Head
pub mod Parse
pub mod Config
pub mod Proxy
mod Tests
