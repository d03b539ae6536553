-- ===== src/MarketData.antt =====
-- The market data streams: src/market_data.
pub mod PriceMap
pub mod Convert
pub mod Streams
pub mod Subscription
pub mod OrderBook
pub mod Quotes
pub mod BookEvents
