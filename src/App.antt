-- ===== src/App.antt =====
-- internal/app: the exporter's registry of sessions and the handoff of each session to the kernel.
pub mod Sessions
pub mod Handoff
pub mod Limits
pub mod Watch
pub mod Serving
pub mod Tracking
pub mod Attaching
pub mod Detaching
pub mod Reconnect
pub mod Callbacks
pub mod Accepting
