-- ===== src/Kernel.antt =====
-- internal/adapter/kernel: what the adapter reads from sysfs and writes to it.
pub mod Text
pub mod Sysfs
pub mod Topology
pub mod Ports
pub mod Attach
pub mod Actions
pub mod Drivers
pub mod Netdevs
pub mod Bind
