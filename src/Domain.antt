-- ===== src/Domain.antt =====
pub mod Device
pub mod BusId
