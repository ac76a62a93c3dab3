-- ===== src/Mount.antt =====
-- Mounting storages and the guest's own file systems (src/mount.rs).
pub mod Options
pub mod Bare
pub mod Cgroups
pub mod Storage
