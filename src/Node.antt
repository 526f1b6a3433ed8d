-- ===== src/Node.antt =====
-- server/crates/sn-node: the node's settings for the overlay program Yggdrasil, its admin socket, and the
-- daemon that runs both the overlay and the exit.
pub mod Types
pub mod Endpoint
pub mod Json
pub mod Admin
pub mod Settings
pub mod DaemonConfig
pub mod Daemon
mod Tests
