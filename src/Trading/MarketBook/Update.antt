-- ===== src/Trading/MarketBook/Update.antt =====
-- trading/strategy/market_order_book.h and .cpp: `updateBBO` and `onMarketUpdate`.
use low_latency_electronic_t.Prelude.{
  ℕ, zero, suc, ◌+◌, ◌%◌, ◌^◌, ℤ, Bool, true, false, Option, none, some, ◌==◌, ltb_ℤ, not,
  if◌then◌else◌,
}
use low_latency_electronic_t.Common.Types.{Side, me_max_order_ids, price_invalid, qty_invalid}
use low_latency_electronic_t.Common.MemPool.{MemPool}
use low_latency_electronic_t.Common.MemPool
use low_latency_electronic_t.Exchange.Messages.{MarketUpdateType, MeMarketUpdate}
use low_latency_electronic_t.Trading.MarketBook.Book.{
  MarketOrder, MarketOrdersAtPrice, MarketOrderBook, on_trade_update, on_order_book_update, M,
  ◌>>=◌, ◌>>◌, pure, gets, modify, deref, order_at, level_at, put_order, check_index,
  allocate_order, notify, best,
}
use low_latency_electronic_t.Trading.MarketBook.Orders.{add_order, remove_order}

-- The loop of `updateBBO` over the orders behind the first one, with fuel: the 32-bit sum of
-- their quantities.
unfoldable pub sum_qty : (ℕ → MarketOrder) → ℕ → ℕ → Option ℕ → ℕ → Option ℕ
sum_qty orders first zero order qty = none
sum_qty orders first (suc fuel) none qty = none
sum_qty orders first (suc fuel) (some order) qty =
    let rest =
      sum_qty orders first fuel (orders order).next_order ((qty + (orders order).qty) % 2 ^ 32) in
    if order == first then some qty else rest

-- The price and the quantity of the best level of one side, or the invalid ones.
unfoldable pub top_of : Side → M (ℤ × ℕ)
top_of side = do
  head ← gets (best side)
  elim head [
    | none ↦ pure (price_invalid, qty_invalid)
    | some l ↦ do
      level ← gets λ b. level_at b l
      first ← deref level.first_mkt_order
      order ← gets λ b. order_at b first
      total ←
          gets λ b. sum_qty (order_at b) first (b.order_pool.size + 1) order.next_order order.qty
      qty ← deref total
      pure (level.price, qty)
  ]

unfoldable pub update_bbo : Bool → Bool → M (Unit {0})
update_bbo update_bid update_ask = do
  if update_bid
      then (do
        (price, qty) ← top_of Side.buy
        modify λ b. record b { bbo = record b.bbo { bid_price = price; bid_qty = qty } })
      else pure tt
  if update_ask
      then (do
        (price, qty) ← top_of Side.sell
        modify λ b. record b { bbo = record b.bbo { ask_price = price; ask_qty = qty } })
      else pure tt

-- Whether an update can change the best bid: an update of that side at no worse a price, or any
-- if the side is empty.
unfoldable pub bid_updated : MeMarketUpdate → MarketOrderBook → Bool
bid_updated u b = elim u.side [
  | Side.buy ↦ elim b.bids_by_price [
    | none ↦ true
    | some l ↦ not (ltb_ℤ u.price (level_at b l).price)
  ]
  | _ ↦ false
]

unfoldable pub ask_updated : MeMarketUpdate → MarketOrderBook → Bool
ask_updated u b = elim u.side [
  | Side.sell ↦ elim b.asks_by_price [
    | none ↦ true
    | some l ↦ not (ltb_ℤ (level_at b l).price u.price)
  ]
  | _ ↦ false
]

-- ADD.
unfoldable pub on_add : MeMarketUpdate → M (Unit {0})
on_add u = do
  p ← allocate_order (record {
    order_id = u.order_id;
    side = u.side;
    price = u.price;
    qty = u.qty;
    priority = u.priority;
    prev_order = none;
    next_order = none;
  })
  add_order p

-- MODIFY.
unfoldable pub on_modify : MeMarketUpdate → M (Unit {0})
on_modify u = do
  check_index u.order_id me_max_order_ids
  found ← gets λ b. b.oid_to_order u.order_id
  p ← deref found
  put_order p λ o. record o { qty = u.qty }

-- CANCEL.
unfoldable pub on_cancel : MeMarketUpdate → M (Unit {0})
on_cancel u = do
  check_index u.order_id me_max_order_ids
  found ← gets λ b. b.oid_to_order u.order_id
  p ← deref found
  remove_order p

-- The loop of CLEAR over the index, for `rounds` ids from `oid` on.
unfoldable pub free_orders :
    (ℕ → Option ℕ) → ℕ → ℕ → MemPool MarketOrder → Option (MemPool MarketOrder)
free_orders index zero oid pool = some pool
free_orders index (suc rounds) oid pool =
    let freed : Option (MemPool MarketOrder) = elim (index oid) [
      | none ↦ some pool
      | some p ↦ MemPool.deallocate pool p
    ] in
    elim freed [ none ↦ none | some pool' ↦ free_orders index rounds (oid + 1) pool' ]

-- The loop of CLEAR over the levels behind the head, with fuel.
unfoldable pub free_levels :
    ℕ → ℕ → Option ℕ → MemPool MarketOrdersAtPrice → Option (MemPool MarketOrdersAtPrice)
free_levels zero head level pool = none
free_levels (suc fuel) head none pool = none
free_levels (suc fuel) head (some l) pool =
    let rest : Option (MemPool MarketOrdersAtPrice) = elim (MemPool.deallocate pool l) [
      | none ↦ none
      | some pool' ↦ free_levels fuel head (pool'.store l).object.next_entry pool'
    ] in
    if l == head then some pool else rest

-- CLEAR of one side: the levels behind the head, then the head.
unfoldable pub clear_side :
    Option ℕ → MemPool MarketOrdersAtPrice → Option (MemPool MarketOrdersAtPrice)
clear_side none pool = some pool
clear_side (some head) pool =
    elim (free_levels (pool.size + 1) head (pool.store head).object.next_entry pool) [
      | none ↦ none
      | some pool' ↦ MemPool.deallocate pool' head
    ]

-- CLEAR: the price index keeps its entries.
unfoldable pub on_clear : M (Unit {0})
on_clear b = elim (free_orders b.oid_to_order me_max_order_ids 0 b.order_pool) [
  | none ↦ none
  | some orders ↦ elim (clear_side b.bids_by_price b.orders_at_price_pool) [
    | none ↦ none
    | some levels ↦ elim (clear_side b.asks_by_price levels) [
      | none ↦ none
      | some levels' ↦ some (
        tt,
        record b {
          oid_to_order = λ o. none;
          order_pool = orders;
          orders_at_price_pool = levels';
          bids_by_price = none;
          asks_by_price = none;
        },
      )
    ]
  ]
]

-- The `switch` without TRADE.
unfoldable pub apply_update : MeMarketUpdate → M (Unit {0})
apply_update u = elim u.type [
  | MarketUpdateType.add ↦ on_add u
  | MarketUpdateType.modify ↦ on_modify u
  | MarketUpdateType.cancel ↦ on_cancel u
  | MarketUpdateType.clear ↦ on_clear
  | _ ↦ pure tt
]

unfoldable pub book_update : MeMarketUpdate → M (Unit {0})
book_update u = do
  bid ← gets (bid_updated u)
  ask ← gets (ask_updated u)
  apply_update u
  update_bbo bid ask
  notify (on_order_book_update u.ticker_id u.price u.side)

unfoldable pub on_market_update : MeMarketUpdate → M (Unit {0})
on_market_update u = elim u.type [
  | MarketUpdateType.trade ↦ notify (on_trade_update u)
  | _ ↦ book_update u
]
