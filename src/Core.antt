-- ===== src/Core.antt =====
-- src/core: the shared types and the components that every other part uses.
pub mod Types
pub mod Calendar
pub mod Contract
pub mod SpscQueue
pub mod Backoff
pub mod EventBus
pub mod Maintenance
pub mod HealthServer
