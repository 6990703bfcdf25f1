-- ===== src/Tests/Book.antt =====
-- Runs of the order book on a book of eight blocks.
use low_latency_electronic_t.Prelude.{ℕ, ◌≡◌, refl, pos, Option, none, some, List, [], ◌∷◌}
use low_latency_electronic_t.Common.Types.{Side, order_id_invalid, priority_invalid}
use low_latency_electronic_t.Common.MemPool
use low_latency_electronic_t.Exchange.Matcher.Book.{
  MeOrderBook, M, ◌>>◌, default_order, default_level, Sent, response, market,
  generate_new_market_order_id, best, set_best, get_orders_at_price, price_to_index, allocate_level,
  allocate_order, free_level, free_order,
}
use low_latency_electronic_t.Exchange.Matcher.Levels.{
  add_orders_at_price, remove_orders_at_price, unlink_level, insert_after, insert_before, promote,
  find_place, walk, goes_after, beats,
}
use low_latency_electronic_t.Exchange.Matcher.Orders.{
  add_order, append_order, remove_order, unlink_order, get_next_priority,
}
use low_latency_electronic_t.Exchange.Matcher.Match.{
  add, check_for_match, match_loop, match_order, settle_passive, no_cross, rest_order,
}

abbrev small : MeOrderBook
small = record {
  ticker_id = 0;
  cid_oid_to_order = λ c o. none;
  orders_at_price_pool = MemPool.init 8 default_level;
  order_pool = MemPool.init 8 default_order;
  bids_by_price = none;
  asks_by_price = none;
  price_orders_at_price = λ i. none;
  next_market_order_id = 1;
  sent = [];
}

abbrev script : M (Unit {0})
script = do
  add 1 1 0 Side.sell (pos 100) 10
  add 1 2 0 Side.sell (pos 105) 10
  add 1 3 0 Side.sell (pos 102) 10
  add 1 4 0 Side.sell (pos 99) 10
  add 1 5 0 Side.sell (pos 110) 3
  add 1 6 0 Side.sell (pos 102) 4
  add 2 1 0 Side.buy (pos 103) 32

ids : List Sent → List (ℕ × ℕ × ℕ)
ids [] = []
ids (response r ∷ l) = (r.market_order_id, r.exec_qty, r.leaves_qty) ∷ ids l
ids (market r ∷ l) = (r.order_id, r.qty, r.priority) ∷ ids l

result : Option (List (ℕ × ℕ × ℕ))
result = elim (script small) [ none ↦ none | some (_, b) ↦ some (ids b.sent) ]

-- Five sells rest in price order; the buy of 32 at 103 takes those at 99, 100 and 102, the older
-- one at 102 first, and leaves 2 of the last.
result_lem :
    result
    ≡ some (
        (1, 0, 10)
        ∷ (1, 10, 1)
        ∷ (2, 0, 10)
        ∷ (2, 10, 1)
        ∷ (3, 0, 10)
        ∷ (3, 10, 1)
        ∷ (4, 0, 10)
        ∷ (4, 10, 1)
        ∷ (5, 0, 3)
        ∷ (5, 3, 1)
        ∷ (6, 0, 4)
        ∷ (6, 4, 2)
        ∷ (7, 0, 32)
        ∷ (7, 10, 22)
        ∷ (4, 10, 0)
        ∷ (order_id_invalid, 10, priority_invalid)
        ∷ (4, 10, priority_invalid)
        ∷ (7, 10, 12)
        ∷ (1, 10, 0)
        ∷ (order_id_invalid, 10, priority_invalid)
        ∷ (1, 10, priority_invalid)
        ∷ (7, 10, 2)
        ∷ (3, 10, 0)
        ∷ (order_id_invalid, 10, priority_invalid)
        ∷ (3, 10, priority_invalid)
        ∷ (7, 2, 0)
        ∷ (6, 2, 2)
        ∷ (order_id_invalid, 2, priority_invalid)
        ∷ (6, 2, 2)
        ∷ [])
unfolding result ids add generate_new_market_order_id check_for_match match_loop match_order
    settle_passive no_cross rest_order add_order append_order remove_order unlink_order
    get_next_priority add_orders_at_price remove_orders_at_price unlink_level insert_after
    insert_before promote find_place walk goes_after beats best set_best get_orders_at_price
    price_to_index allocate_level allocate_order free_level free_order default_order default_level
    MemPool.init MemPool.allocate MemPool.deallocate MemPool.scan
result_lem = refl
