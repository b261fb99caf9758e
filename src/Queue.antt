-- ===== src/Queue.antt =====
-- The crate dog-queue (dog-queue/src): job queues with leases, retries and several tenants.
pub mod Error
pub mod Priority
pub mod Record
pub mod Event
pub mod Order
pub mod Ctx
pub mod Config
pub mod Retry
pub mod Memory
pub mod Worker
pub mod Metrics
pub mod Examples
