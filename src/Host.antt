-- ===== src/Host.antt =====
-- host/ and include/host: TUN devices as the host's kernel knows them.
pub mod Kernel
pub mod Device
pub mod Registry
pub mod Admin
mod Examples
