-- ===== src/Exchange/MarketData.antt =====
-- exchange/market_data/: the publisher of the incremental stream and the snapshots.
pub mod Publisher
pub mod Snapshot
