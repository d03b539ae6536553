-- ===== src/Strategy.antt =====
-- src/strategy: the indicators, the strategy that joins them, and the runner that drives it.
pub mod OfiTypes
pub mod OrderBookState
pub mod TradeFlow
pub mod SpoofFilter
pub mod SessionContext
pub mod Confluence
pub mod Runner
pub mod ConfluenceState
