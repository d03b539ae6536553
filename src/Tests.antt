-- ===== src/Tests.antt =====
-- Concrete instances of the theorems, over numbers with nine decimals, and runs of the model.
mod Fixtures
mod Orders
mod Sessions
mod Running
mod Limits
mod Contracts
mod Queues
mod Waits
mod Flows
mod Markets
mod Systems
mod Bots
mod Lives
