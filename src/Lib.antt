-- ===== src/Lib.antt =====
-- A low-latency electronic trading system: an exchange (order server, sequencer, matching engine,
-- market data) and a trading client (gateways, order books, order manager, risk checks).
--
-- The program. The order server reads the requests of the clients from TCP and stages those that
-- are in sequence; at the end of a round the sequencer sorts them by receive time and writes them
-- to a queue. The matching engine reads the queue and calls the order book of the ticker, which
-- sends responses to the clients (back through the order server) and market updates to the
-- publisher. The publisher numbers the updates, multicasts them, and passes them to the snapshot
-- synthesizer, which keeps all live orders and multicasts them from time to time. On the client's
-- side the consumer follows the numbered stream and asks for a snapshot after a gap; the order
-- book of the client is built from its updates. The order manager keeps one order for each ticker
-- and side and sends requests through the order gateway.
--
-- The files.
--   Prelude: what all files share. Boolean tests, signed integers with C++'s division and
--     conversions, function updates, lists over the native numbers.
--   Common.Types: common/types.h. Common.MemPool: common/mem_pool.h; a pointer into a pool is the
--     index of its block, and `none` as a result is the end of the process. Common.OptMemPool:
--     common/opt_mem_pool.h under both builds. Common.LfQueue: common/lf_queue.h.
--   Exchange.Messages: the messages of exchange/order_server/client_request.h and
--     client_response.h, and of exchange/market_data/market_update.h.
--   Exchange.Matcher: exchange/matcher/me_order.h, me_order_book.h, me_order_book.cpp and
--     matching_engine.h. Book has the state and reads and writes of it; Levels the circular lists
--     of price levels (addOrdersAtPrice, removeOrdersAtPrice); Orders those of the orders of a
--     level (addOrder, removeOrder, getNextPriority); Match has match, checkForMatch, add and
--     cancel; Engine has processClientRequest, the two send functions and one pass of run. Silent,
--     Fills, Trades, NewOrder, Accounts, Cancels and Routing are about what these send. Inv has the
--     invariant of the book (a book in order), and its children what each function makes of a
--     book in order: Forget, Unlink, Drop, Emptied and Removal for removeOrder; Touch, Fill,
--     Front, Loop and Matching for match and checkForMatch; Cancel; Append, Walk, Link, Enter,
--     NewLevel, NewPrice, Rest, Add and Taken for add; Reach for a sequence of requests.
--     Common.Rings has the circular lists in general, with their insertion and removal.
--   Exchange.Sequencer: exchange/order_server/fifo_sequencer.h. Exchange.OrderServer:
--     exchange/order_server/order_server.h.
--   Exchange.MarketData: market_data_publisher.cpp and snapshot_synthesizer.cpp of
--     exchange/market_data.
--   Trading.Consumer: trading/market_data/market_data_consumer.cpp, with McastSocket::leave of
--     common/mcast_socket.cpp; Stuck is about its recovery. Trading.Gateway:
--     trading/order_gw/order_gateway.cpp.
--   Trading.MarketBook: trading/strategy/market_order.h, market_order_book.h and
--     market_order_book.cpp. Trading.OrderManager: order_manager.h and order_manager.cpp of
--     trading/strategy. Trading.Risk: RiskInfo of trading/strategy/risk_manager.h.
--   Trading.Positions: trading/strategy/position_keeper.h; Range is about the range of int32_t,
--     Booked and Sums are about one fill and a history of fills.
--     Trading.Maker: onOrderBookUpdate of market_maker.cpp and onTradeUpdate of liquidity_taker.cpp
--     in trading/strategy; Passive is about the quotes. Trading.Double: the record of operations
--     that stands for the double in both.
--   Tests: runs of the definitions and applications of the theorems on concrete data.
--
-- Conventions. A function that can end the process (a failed ASSERT, FATAL, `at` out of range
-- in a noexcept function) or that has undefined behaviour (it reads past an array or through a
-- null pointer, or its `int32_t` arithmetic overflows) returns an Option, and `none` is that
-- end. Ids, sequence numbers and quantities are natural numbers; prices and positions are
-- integers. Where the code narrows or converts a number, the model does (`% 2 ^ 32`, `to_u64`,
-- `to_i32`). Counters of 64 bits that only grow by one (sequence numbers, order ids), the
-- products of a price and a quantity, and differences of prices are not wrapped. What a
-- component writes to a queue or to a socket and does not read back is the list of what was
-- written. Buffers of bytes are lists of whole messages.
--
-- Fuel. The search of a pool for a free block has one step for each block; that this is enough is
-- a lemma of Common.MemPool.Search. The walk along the levels of a book has as many passes as the
-- pool of levels has blocks: Exchange.Matcher.Inv.Walk counts the levels that are still behind. The
-- loop of checkForMatch has two passes more than the pool of orders has blocks, since a pass that
-- is not the last takes an order off the book: Exchange.Matcher.Inv.Loop counts the orders on it.
-- Running out of either is `none`, the end of the process.
--
-- Hypotheses on the book. A book in order is one for which Exchange.Matcher.Inv.Fill.BookOk holds:
-- the links of the two kinds of circular lists are inverse to each other, the levels of a side
-- stand in the order of their prices and the orders of a level in that of their priorities, the
-- heads and the two index arrays point to blocks in use, and something is left of each order. What
-- `add` needs of a book beyond that is Exchange.Matcher.Inv.Add.CanTake.
--
-- Not modelled. Sockets, threads, the memory order of atomics, logging, clocks and latency
-- measurement; the trade engine; the feature engine and VPIN, whose answers are arguments of
-- the strategies; the backtest with its tape readers; the gateway to Binance; start-up and
-- benchmarks. `std::sort` is a parameter of the sequencer with its documented behaviour as a
-- hypothesis; the comparison of floating-point numbers is a parameter of the risk check, and
-- all arithmetic of the double is one of the position keeper and the strategies, about which
-- nothing is assumed but, for the market maker, that no double is equal to a NaN; the risk
-- check is an argument of the order manager.
pub mod Prelude
pub mod Common
pub mod Exchange
pub mod Trading
mod Tests
