-- ===== src/Device.antt =====
-- Devices of a container (src/device.rs): finding the guest's device for a request, and the device
-- numbers in the container's specification.
pub mod Names
pub mod Update
pub mod Handlers
pub mod Keeps
