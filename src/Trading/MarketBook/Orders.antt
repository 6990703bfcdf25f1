-- ===== src/Trading/MarketBook/Orders.antt =====
-- trading/strategy/market_order_book.h: the circular list of orders of one level, `addOrder` and
-- `removeOrder`.
use low_latency_electronic_t.Prelude.{ℕ, Option, none, some, ptr_eq, if◌then◌else◌, update}
use low_latency_electronic_t.Common.Types.{me_max_order_ids}
use low_latency_electronic_t.Trading.MarketBook.Book.{
  M, ◌>>=◌, ◌>>◌, pure, gets, modify, deref, order_at, level_at, put_order, put_level, check_index,
  allocate_level, free_order, get_orders_at_price,
}
use low_latency_electronic_t.Trading.MarketBook.Levels.{add_orders_at_price, remove_orders_at_price}

-- `oid_to_order_.at(order_id) = p`: the index is checked.
abbrev pub set_index : ℕ → Option ℕ → M (Unit {0})
set_index order_id p = do
  check_index order_id me_max_order_ids
  modify λ b. record b { oid_to_order = update b.oid_to_order order_id p }

-- Links the order `p` in behind the last order of the level `l`.
unfoldable pub append_order : ℕ → ℕ → M (Unit {0})
append_order l p = do
  first ← gets λ b. (level_at b l).first_mkt_order
  first ← deref first
  last ← gets λ b. (order_at b first).prev_order
  last ← deref last
  put_order last λ o. record o { next_order = some p }
  put_order p λ o. record o { prev_order = some last }
  put_order p λ o. record o { next_order = some first }
  put_order first λ o. record o { prev_order = some p }

unfoldable pub add_order : ℕ → M (Unit {0})
add_order p = do
  order ← gets λ b. order_at b p
  found ← gets (get_orders_at_price order.price)
  elim found [
    | none ↦ do
      put_order p λ o. record o { prev_order = some p; next_order = some p }
      level ← allocate_level (record {
        side = order.side;
        price = order.price;
        first_mkt_order = some p;
        prev_entry = none;
        next_entry = none;
      })
      add_orders_at_price level
    | some l ↦ append_order l p
  ]
  set_index order.order_id (some p)

-- Takes the order `p` out of the circular list of the level `found`.
unfoldable pub unlink_order : Option ℕ → ℕ → M (Unit {0})
unlink_order found p = do
  order ← gets λ b. order_at b p
  before ← deref order.prev_order
  put_order before λ o. record o { next_order = order.next_order }
  after ← deref order.next_order
  put_order after λ o. record o { prev_order = order.prev_order }
  l ← deref found
  level ← gets λ b. level_at b l
  if ptr_eq level.first_mkt_order (some p)
      then put_level l (λ r. record r { first_mkt_order = order.next_order })
      else pure tt
  put_order p λ o. record o { prev_order = none; next_order = none }

-- Takes the order `p` out of the list at its price, and the level with the last one; then out of
-- the index and back to the pool.
unfoldable pub remove_order : ℕ → M (Unit {0})
remove_order p = do
  order ← gets λ b. order_at b p
  found ← gets (get_orders_at_price order.price)
  if ptr_eq order.prev_order (some p)
      then remove_orders_at_price order.side order.price
      else unlink_order found p
  set_index order.order_id none
  free_order p
