-- ===== src/Trading.antt =====
-- trading/: the client's order management, risk checks, gateway and market data.
pub mod Double
pub mod Positions
pub mod Maker
pub mod Risk
pub mod OrderManager
pub mod Consumer
pub mod Gateway
pub mod MarketBook
