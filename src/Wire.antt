-- ===== src/Wire.antt =====
-- internal/adapter/wire: the codec of the USB/IP handshake.
pub mod Fields
pub mod Header
pub mod Layout
pub mod Devlist
pub mod ImportOp
pub mod Agreement
