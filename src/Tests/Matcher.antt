-- ===== src/Tests/Matcher.antt =====
-- The theorems on the matching engine's order book at concrete books.
use low_latency_electronic_t.Prelude.{
  ℕ, ◌+◌, ◌≡◌, ◌≢◌, refl, inl, pos, Option, none, some, List, [], ◌∷◌, ◌++◌, arith,
}
use low_latency_electronic_t.Common.Types.{Side}
use low_latency_electronic_t.Common.MemPool
use low_latency_electronic_t.Common.LfQueue
use low_latency_electronic_t.Common.LfQueue.{LfQueue}
use low_latency_electronic_t.Common.LfQueue.Refine.{init-IsValid}
use low_latency_electronic_t.Exchange.Messages.{
  ClientRequestType, MeClientRequest, MeClientResponse, MeMarketUpdate,
}
use low_latency_electronic_t.Exchange.Matcher.Engine.{
  MatchingEngine, dispatch, process_client_request,
}
use low_latency_electronic_t.Exchange.Matcher.Routing.{
  responses_of, updates_of, Got, process_client_request_lem,
}
use low_latency_electronic_t.Exchange.Matcher.Book.{
  MeOrder, MeOrderBook, ◌>>◌, default_order, default_level, response, order_at,
  generate_new_market_order_id, best, set_best, get_orders_at_price, price_to_index, allocate_level,
  allocate_order, free_level, free_order,
}
use low_latency_electronic_t.Exchange.Matcher.Levels.{
  add_orders_at_price, remove_orders_at_price, unlink_level, insert_after, insert_before, promote,
  find_place, walk, goes_after, beats,
}
use low_latency_electronic_t.Exchange.Matcher.Orders.{
  add_order, append_order, remove_order, unlink_order, get_next_priority,
}
use low_latency_electronic_t.Exchange.Matcher.Match.{
  add, cancel, find_order, check_for_match, match_loop, match_order, settle_passive, no_cross,
  rest_order,
}
use low_latency_electronic_t.Exchange.Matcher.Fills.{Run, Met, fills, left_after}
use low_latency_electronic_t.Exchange.Matcher.Trades.{
  check_for_match-Run, check_for_match-traded, traded, weigh,
}
use low_latency_electronic_t.Exchange.Matcher.NewOrder.{add_lem, accepted, rest_messages}
use low_latency_electronic_t.Exchange.Matcher.Accounts.{accounted_qty, add-accounted_qty}
use low_latency_electronic_t.Exchange.Matcher.Cancels.{
  cancel-known, rejection, cancel_messages, cancel_update,
}

-- A new book of eight blocks.
abbrev empty : MeOrderBook
empty = record {
  ticker_id = 0;
  cid_oid_to_order = λ c o. none;
  orders_at_price_pool = MemPool.init 8 default_level;
  order_pool = MemPool.init 8 default_order;
  bids_by_price = none;
  asks_by_price = none;
  price_orders_at_price = λ i. none;
  next_market_order_id = 4294967296;
  sent = [];
}

-- The book after a run.
abbrev book_of : {A : Type 0} → Option (A × MeOrderBook) → MeOrderBook
book_of none = empty
book_of (some (_, b)) = b

-- Two sells rest at 100 and 105.
abbrev asks : MeOrderBook
asks = book_of ((add 1 1 0 Side.sell (pos 100) 10 >> add 1 2 0 Side.sell (pos 105) 10) empty)

-- The book once a buy of 12 at 103 is matched.
abbrev matched : MeOrderBook
matched = book_of (check_for_match 2 1 0 Side.buy (pos 103) 12 4294967298 asks)

check_for_match-Run_example : Run 0 2 Side.buy 1 2 (pos 103) 12 2 asks matched
unfolding cancel find_order add generate_new_market_order_id check_for_match match_loop match_order
    settle_passive no_cross rest_order add_order append_order remove_order unlink_order
    get_next_priority add_orders_at_price remove_orders_at_price unlink_level insert_after
    insert_before promote find_place walk goes_after beats best set_best get_orders_at_price
    price_to_index allocate_level allocate_order free_level free_order default_order default_level
    MemPool.init MemPool.allocate MemPool.deallocate MemPool.scan
check_for_match-Run_example =
    check_for_match-Run 2 1 0 Side.buy (pos 103) 12 4294967298 asks (inl refl) refl

check_for_match-traded_example : traded matched.sent + 2 ≡ traded asks.sent + 12
unfolding cancel find_order add generate_new_market_order_id check_for_match match_loop match_order
    settle_passive no_cross rest_order add_order append_order remove_order unlink_order
    get_next_priority add_orders_at_price remove_orders_at_price unlink_level insert_after
    insert_before promote find_place walk goes_after beats best set_best get_orders_at_price
    price_to_index allocate_level allocate_order free_level free_order default_order default_level
    MemPool.init MemPool.allocate MemPool.deallocate MemPool.scan
check_for_match-traded_example =
    check_for_match-traded 2 1 0 Side.buy (pos 103) 12 4294967298 asks (inl refl) refl

-- The book once that buy is added.
abbrev bought : MeOrderBook
bought = book_of (add 2 1 0 Side.buy (pos 103) 12 asks)

add_lem_example :
    (os : List MeOrder) × (priority : ℕ) × (bought.sent
      ≡ asks.sent
        ++ response (accepted 2 1 0 Side.buy (pos 103) 4294967298 12)
          ∷ (fills 0 2 Side.buy 1 2 12 os
              ++ rest_messages 2 1 0 Side.buy (pos 103) 4294967298 (left_after 12 os) priority))
    × (bought.next_market_order_id ≡ 4294967299)
    × Met Side.buy (pos 103) 12 os
unfolding cancel find_order add generate_new_market_order_id check_for_match match_loop match_order
    settle_passive no_cross rest_order add_order append_order remove_order unlink_order
    get_next_priority add_orders_at_price remove_orders_at_price unlink_level insert_after
    insert_before promote find_place walk goes_after beats best set_best get_orders_at_price
    price_to_index allocate_level allocate_order free_level free_order default_order default_level
    MemPool.init MemPool.allocate MemPool.deallocate MemPool.scan
add_lem_example = add_lem 2 1 0 Side.buy (pos 103) 12 asks bought (inl refl) refl

add-accounted_qty_example : weigh accounted_qty bought.sent ≡ weigh accounted_qty asks.sent + 12
unfolding cancel find_order add generate_new_market_order_id check_for_match match_loop match_order
    settle_passive no_cross rest_order add_order append_order remove_order unlink_order
    get_next_priority add_orders_at_price remove_orders_at_price unlink_level insert_after
    insert_before promote find_place walk goes_after beats best set_best get_orders_at_price
    price_to_index allocate_level allocate_order free_level free_order default_order default_level
    MemPool.init MemPool.allocate MemPool.deallocate MemPool.scan
add-accounted_qty_example =
    add-accounted_qty 2 1 0 Side.buy (pos 103) 12 asks bought (inl refl) refl

-- The book once the sell at 105 is canceled.
abbrev canceled : MeOrderBook
canceled = book_of (cancel 1 2 0 asks)

cancel-known_example : canceled.sent ≡ asks.sent ++ cancel_messages 1 2 0 (order_at asks 1)
unfolding cancel find_order add generate_new_market_order_id check_for_match match_loop match_order
    settle_passive no_cross rest_order add_order append_order remove_order unlink_order
    get_next_priority add_orders_at_price remove_orders_at_price unlink_level insert_after
    insert_before promote find_place walk goes_after beats best set_best get_orders_at_price
    price_to_index allocate_level allocate_order free_level free_order default_order default_level
    MemPool.init MemPool.allocate MemPool.deallocate MemPool.scan
cancel-known_example = cancel-known 1 2 0 asks canceled refl refl

-- An engine whose books all hold the two sells, and a request to buy.
abbrev response_queue : LfQueue MeClientResponse
response_queue = LfQueue.init 16 (rejection 0 0 0)

abbrev update_queue : LfQueue MeMarketUpdate
update_queue = LfQueue.init 16 (cancel_update 0 default_order)

abbrev buy_request : MeClientRequest
buy_request = record {
  type = ClientRequestType.new;
  client_id = 2;
  ticker_id = 3;
  order_id = 1;
  side = Side.buy;
  price = pos 103;
  qty = 12;
}

abbrev engine : MatchingEngine
engine = record {
  ticker_order_book = λ t. asks;
  incoming_requests = LfQueue.init 16 buy_request;
  outgoing_ogw_responses = response_queue;
  outgoing_md_updates = update_queue;
}

-- The book of ticker 3 once the request is processed.
abbrev processed : MeOrderBook
processed = book_of (dispatch buy_request (record asks { sent = [] }))

process_client_request_lem_example :
    (e' : MatchingEngine) × (process_client_request buy_request engine ≡ some e')
    × (e'.ticker_order_book 3 ≡ processed)
    × ((t : ℕ) → t ≢ 3 → e'.ticker_order_book t ≡ asks)
    × Got response_queue e'.outgoing_ogw_responses (responses_of processed.sent)
    × Got update_queue e'.outgoing_md_updates (updates_of processed.sent)
unfolding dispatch cancel find_order LfQueue.init add generate_new_market_order_id check_for_match
    match_loop match_order settle_passive no_cross rest_order add_order append_order remove_order
    unlink_order get_next_priority add_orders_at_price remove_orders_at_price unlink_level
    insert_after insert_before promote find_place walk goes_after beats best set_best
    get_orders_at_price price_to_index allocate_level allocate_order free_level free_order
    default_order default_level MemPool.init MemPool.allocate MemPool.deallocate MemPool.scan
process_client_request_lem_example =
    process_client_request_lem buy_request engine (omega arith) refl
      (record { valid = (init-IsValid 16 (rejection 0 0 0) (omega arith)).0; room = omega arith })
      (record {
        valid = (init-IsValid 16 (cancel_update 0 default_order) (omega arith)).0;
        room = omega arith;
      })
