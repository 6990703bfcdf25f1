-- ===== src/Tests.antt =====
-- Runs of the modelled functions on small inputs, and the theorems at concrete inputs.
mod Common
mod Orders
mod Server
mod MarketData
mod Book
mod Matcher
mod Invariant
mod MarketBook
mod Strategies
