-- ===== src/Tests.antt =====
-- Concrete runs that the theorems are applied to, on a small instance of the operating system.
pub mod World
mod SandboxRuns
mod ProcessRuns
mod ValidatorRuns
mod MountRuns
mod CreateRuns
mod DeviceRuns
mod StorageRuns
mod StartRuns
mod StartupRuns
mod CgroupRuns
mod ProcsRuns
mod RootfsRuns
mod RequestRuns
mod ServiceRuns
