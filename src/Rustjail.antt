-- ===== src/Rustjail.antt =====
-- The container library of the agent (rustjail/src).
pub mod Process
pub mod Container
pub mod Lifecycle
pub mod Validator
pub mod Cgroups
pub mod Capabilities
pub mod Rootfs
pub mod Limits
pub mod Create
pub mod Start
pub mod Join
pub mod Environment
pub mod Identity
pub mod Handshake
pub mod Namespaces
pub mod Sync
