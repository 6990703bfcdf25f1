-- ===== src/Trading/MarketBook.antt =====
-- trading/strategy/market_order_book.h and .cpp: the client's view of the book of one ticker.
pub mod Book
pub mod Levels
pub mod Orders
pub mod Update
pub mod Clear
