-- ===== src/Exchange/Matcher.antt =====
-- exchange/matcher/: the order book of one ticker and the engine that owns the books.
pub mod Book
pub mod Levels
pub mod Orders
pub mod Match
pub mod Silent
pub mod Fills
pub mod Trades
pub mod NewOrder
pub mod Accounts
pub mod Cancels
pub mod Engine
pub mod Routing
pub mod Inv
