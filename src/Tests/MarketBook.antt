-- ===== src/Tests/MarketBook.antt =====
-- The client's book (trading/strategy/market_order_book.h and .cpp) at concrete inputs.
use low_latency_electronic_t.Prelude.{
  ℕ, zero, suc, ◌≤◌, ◌≡◌, refl, pos, Bool, true, false, Option, none, some, [], update, arith,
}
use low_latency_electronic_t.Common.Types.{Side, price_invalid, qty_invalid}
use low_latency_electronic_t.Common.MemPool
use low_latency_electronic_t.Common.MemPool.{MemPool}
use low_latency_electronic_t.Exchange.Messages.{MarketUpdateType, MeMarketUpdate}
use low_latency_electronic_t.Trading.MarketBook.Book.{
  MarketOrder, MarketOrdersAtPrice, MarketOrderBook, get_orders_at_price, price_to_index,
  allocate_order,
}
use low_latency_electronic_t.Trading.MarketBook.Orders.{add_order, append_order}
use low_latency_electronic_t.Trading.MarketBook.Update.{
  on_add, on_clear, free_orders, clear_side, free_levels,
}
use low_latency_electronic_t.Trading.MarketBook.Clear.{on_add-on_clear, free_orders-past}

-- One order to buy at 100, in block 0, in the level of block 0.
abbrev resting : MarketOrder
resting = record {
  order_id = 1;
  side = Side.buy;
  price = pos 100;
  qty = 5;
  priority = 1;
  prev_order = some 0;
  next_order = some 0;
}

abbrev level : MarketOrdersAtPrice
level = record {
  side = Side.buy;
  price = pos 100;
  first_mkt_order = some 0;
  prev_entry = some 0;
  next_entry = some 0;
}

abbrev orders : Bool → MemPool MarketOrder
orders free = record {
  store =
      update (λ i. record { object = resting; is_free = true }) 0
        (record { object = resting; is_free = free });
  size = 4;
  next_free_index = 1;
}

abbrev levels : Bool → MemPool MarketOrdersAtPrice
levels free = record {
  store =
      update (λ i. record { object = level; is_free = true }) 0
        (record { object = level; is_free = free });
  size = 4;
  next_free_index = 1;
}

abbrev index : ℕ → Option ℕ
index zero = none
index (suc zero) = some 0
index o = none

abbrev one_bid : MarketOrderBook
one_bid = record {
  ticker_id = 0;
  oid_to_order = index;
  orders_at_price_pool = levels false;
  bids_by_price = some 0;
  asks_by_price = none;
  price_orders_at_price = update (λ i. none) 100 (some 0);
  order_pool = orders false;
  bbo = record {
    bid_price = pos 100;
    ask_price = price_invalid;
    bid_qty = 5;
    ask_qty = qty_invalid;
  };
  notices = [];
}

abbrev freed_orders : MemPool MarketOrder
freed_orders = record (orders false) {
  store = update (orders false).store 0 (record { object = resting; is_free = true });
}

abbrev cleared : MarketOrderBook
cleared = record one_bid {
  oid_to_order = λ o. none;
  orders_at_price_pool = record (levels false) {
    store = update (levels false).store 0 (record { object = level; is_free = true });
  };
  order_pool = freed_orders;
  bids_by_price = none;
}

index-past : (o : ℕ) → 2 ≤ o → index o ≡ none
index-past zero h = absurd (omega arith)
index-past (suc zero) h = absurd (omega arith)
index-past (suc (suc o)) h = refl

free_orders-one_bid :
    (rounds : ℕ) → free_orders index (suc (suc rounds)) 0 (orders false) ≡ some freed_orders
unfolding free_orders MemPool.deallocate
free_orders-one_bid rounds = free_orders-past index rounds 2 freed_orders index-past

on_clear-one_bid : on_clear one_bid ≡ some (tt, cleared)
unfolding on_clear clear_side free_levels MemPool.deallocate
on_clear-one_bid = rw (free_orders-one_bid 1048574, on_clear)

abbrev add_100 : MeMarketUpdate
add_100 = record {
  type = MarketUpdateType.add;
  order_id = 2;
  ticker_id = 0;
  side = Side.buy;
  price = pos 100;
  qty = 7;
  priority = 1;
}

abbrev or_cleared : Option (Unit {0} × MarketOrderBook) → MarketOrderBook
or_cleared none = cleared
or_cleared (some (_, b)) = b

-- The order is added, and yet there is no bid.
on_add-on_clear_example :
    ((or_cleared (on_add add_100 cleared)).bids_by_price ≡ none)
    × ((or_cleared (on_add add_100 cleared)).asks_by_price ≡ none)
unfolding on_add allocate_order MemPool.allocate MemPool.scan add_order append_order
    get_orders_at_price price_to_index
on_add-on_clear_example =
    on_add-on_clear add_100 0 one_bid {b' = cleared} {b'' = or_cleared (on_add add_100 cleared)}
      refl on_clear-one_bid refl
