-- ===== src/Tests.antt =====
-- The theorems at concrete inputs, and runs of the definitions.
mod Samples
mod Wire
mod Domain
mod Kernel
mod Bind
mod App
mod Serving
mod Importing
mod Reconnect
mod Accepting
