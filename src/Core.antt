-- ===== src/Core.antt =====
-- The crate dog-core: services, their hooks and events, and the application that runs a call of a service.
pub mod Kit
pub mod Service
pub mod Hooks
pub mod Events
pub mod App
pub mod Pipeline
pub mod Errors
pub mod Handle
mod Examples
