-- ===== src/Exchange.antt =====
-- exchange/: the messages, the matcher, the order server and the market data of the exchange.
pub mod Messages
pub mod Matcher
pub mod Sequencer
pub mod OrderServer
pub mod MarketData
