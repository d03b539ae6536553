-- ===== src/Risk.antt =====
-- src/risk: the limits that an order passes before it is sent, and the profit and loss of the day.
pub mod RiskManager
pub mod State
