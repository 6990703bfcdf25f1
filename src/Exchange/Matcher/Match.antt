-- ===== src/Exchange/Matcher/Match.antt =====
-- exchange/matcher/me_order_book.cpp: `match`, `checkForMatch`, `add` and `cancel`.
use low_latency_electronic_t.Prelude.{
  ℕ, zero, suc, ◌+◌, ◌-◌, ◌%◌, ◌^◌, ℤ, Bool, Option, none, some, ◌==◌, ltb, ltb_ℤ, min,
  if◌then◌else◌,
}
use low_latency_electronic_t.Common.Types.{
  Side, me_max_num_clients, me_max_order_ids, order_id_invalid, price_invalid, qty_invalid,
  priority_invalid,
}
use low_latency_electronic_t.Exchange.Messages.{ClientResponseType, MarketUpdateType}
use low_latency_electronic_t.Exchange.Matcher.Book.{
  M, ◌>>=◌, ◌>>◌, pure, fault, gets, deref, order_at, level_at, put_order, check_index,
  allocate_order, send_client_response, send_market_update, generate_new_market_order_id, best,
}
use low_latency_electronic_t.Exchange.Matcher.Orders.{add_order, remove_order, get_next_priority}

-- The end of `match`: the passive order is removed if it is filled, else its rest is published.
unfoldable pub settle_passive : ℕ → ℕ → ℕ → M (Unit {0})
settle_passive ticker_id order_qty p = do
  passive ← gets λ b. order_at b p
  if passive.qty == 0
      then (do
        send_market_update (record {
          type = MarketUpdateType.cancel;
          order_id = passive.market_order_id;
          ticker_id = ticker_id;
          side = passive.side;
          price = passive.price;
          qty = order_qty;
          priority = priority_invalid;
        })
        remove_order p)
      else send_market_update (record {
        type = MarketUpdateType.modify;
        order_id = passive.market_order_id;
        ticker_id = ticker_id;
        side = passive.side;
        price = passive.price;
        qty = passive.qty;
        priority = passive.priority;
      })

-- `match`: one fill between the aggressor and the passive order `p`. The result is `*leaves_qty`.
unfoldable pub match_order : ℕ → ℕ → Side → ℕ → ℕ → ℕ → ℕ → M ℕ
match_order ticker_id client_id side client_order_id new_market_order_id p leaves_qty = do
  before ← gets λ b. order_at b p
  let order_qty = before.qty
  let fill_qty = min leaves_qty order_qty
  let leaves = leaves_qty - fill_qty
  put_order p λ o. record o { qty = o.qty - fill_qty }
  passive ← gets λ b. order_at b p
  send_client_response (record {
    type = ClientResponseType.filled;
    client_id = client_id;
    ticker_id = ticker_id;
    client_order_id = client_order_id;
    market_order_id = new_market_order_id;
    side = side;
    price = passive.price;
    exec_qty = fill_qty;
    leaves_qty = leaves;
  })
  send_client_response (record {
    type = ClientResponseType.filled;
    client_id = passive.client_id;
    ticker_id = ticker_id;
    client_order_id = passive.client_order_id;
    market_order_id = passive.market_order_id;
    side = passive.side;
    price = passive.price;
    exec_qty = fill_qty;
    leaves_qty = passive.qty;
  })
  send_market_update (record {
    type = MarketUpdateType.trade;
    order_id = order_id_invalid;
    ticker_id = ticker_id;
    side = side;
    price = passive.price;
    qty = fill_qty;
    priority = priority_invalid;
  })
  settle_passive ticker_id order_qty p
  pure leaves

-- Whether an order of this side and price does not cross the best price of the other side.
unfoldable pub no_cross : Side → ℤ → ℤ → Bool
no_cross Side.buy price best_price = ltb_ℤ price best_price
no_cross _ price best_price = ltb_ℤ best_price price

abbrev pub opposite : Side → Side
opposite Side.buy = Side.sell
opposite _ = Side.buy

-- The loop of `checkForMatch` on one side, with fuel: `side` is BUY or SELL.
unfoldable pub match_loop : ℕ → ℕ → ℕ → ℕ → Side → ℤ → ℕ → ℕ → M ℕ
match_loop zero client_id client_order_id ticker_id side price moid leaves_qty = fault
match_loop (suc fuel) client_id client_order_id ticker_id side price moid leaves_qty =
    let again = (do
      head ← gets (best (opposite side))
      elim head [
        | none ↦ pure leaves_qty
        | some l ↦ do
          first ← gets λ b. (level_at b l).first_me_order
          first ← deref first
          passive ← gets λ b. order_at b first
          let next = (do
            leaves ← match_order ticker_id client_id side client_order_id moid first leaves_qty
            match_loop fuel client_id client_order_id ticker_id side price moid leaves)
          if no_cross side price passive.price then pure leaves_qty else next
      ]) in
    if leaves_qty == 0 then pure leaves_qty else again

-- `checkForMatch`. Its last parameter is a `Qty`: the market order id is cut to 32 bits. A pass
-- of the loop removes an order or ends it, so that the blocks of the pool bound its passes.
unfoldable pub check_for_match : ℕ → ℕ → ℕ → Side → ℤ → ℕ → ℕ → M ℕ
check_for_match client_id client_order_id ticker_id side price qty new_market_order_id = do
  fuel ← gets λ b. b.order_pool.size + 2
  let moid = new_market_order_id % 2 ^ 32
  elim side [
    | Side.buy ↦ match_loop fuel client_id client_order_id ticker_id Side.buy price moid qty
    | Side.sell ↦ match_loop fuel client_id client_order_id ticker_id Side.sell price moid qty
    | _ ↦ pure qty
  ]

-- What `add` does once it has matched: the rest of the order goes on the book.
unfoldable pub rest_order : ℕ → ℕ → ℕ → Side → ℤ → ℕ → ℕ → M (Unit {0})
rest_order client_id client_order_id ticker_id side price leaves_qty new_market_order_id = do
  priority ← get_next_priority price
  order ← allocate_order (record {
    ticker_id = ticker_id;
    client_id = client_id;
    client_order_id = client_order_id;
    market_order_id = new_market_order_id;
    side = side;
    price = price;
    qty = leaves_qty;
    priority = priority;
    prev_order = none;
    next_order = none;
  })
  add_order order
  send_market_update (record {
    type = MarketUpdateType.add;
    order_id = new_market_order_id;
    ticker_id = ticker_id;
    side = side;
    price = price;
    qty = leaves_qty;
    priority = priority;
  })

unfoldable pub add : ℕ → ℕ → ℕ → Side → ℤ → ℕ → M (Unit {0})
add client_id client_order_id ticker_id side price qty = do
  new_market_order_id ← generate_new_market_order_id
  send_client_response (record {
    type = ClientResponseType.accepted;
    client_id = client_id;
    ticker_id = ticker_id;
    client_order_id = client_order_id;
    market_order_id = new_market_order_id;
    side = side;
    price = price;
    exec_qty = 0;
    leaves_qty = qty;
  })
  leaves_qty ←
      check_for_match client_id client_order_id ticker_id side price qty new_market_order_id
  if leaves_qty == 0
      then pure tt
      else rest_order client_id client_order_id ticker_id side price leaves_qty new_market_order_id

-- The order that `cancel` finds; an order id out of range ends the process.
unfoldable pub find_order : ℕ → ℕ → M (Option ℕ)
find_order client_id order_id =
    if ltb client_id me_max_num_clients
    then (do check_index order_id me_max_order_ids; gets λ b. b.cid_oid_to_order client_id order_id)
    else pure none

unfoldable pub cancel : ℕ → ℕ → ℕ → M (Unit {0})
cancel client_id order_id ticker_id = do
  found ← find_order client_id order_id
  elim found [
    | none ↦ send_client_response (record {
      type = ClientResponseType.cancel_rejected;
      client_id = client_id;
      ticker_id = ticker_id;
      client_order_id = order_id;
      market_order_id = order_id_invalid;
      side = Side.invalid;
      price = price_invalid;
      exec_qty = qty_invalid;
      leaves_qty = qty_invalid;
    })
    | some p ↦ do
      order ← gets λ b. order_at b p
      remove_order p
      send_market_update (record {
        type = MarketUpdateType.cancel;
        order_id = order.market_order_id;
        ticker_id = ticker_id;
        side = order.side;
        price = order.price;
        qty = 0;
        priority = order.priority;
      })
      send_client_response (record {
        type = ClientResponseType.canceled;
        client_id = client_id;
        ticker_id = ticker_id;
        client_order_id = order_id;
        market_order_id = order.market_order_id;
        side = order.side;
        price = order.price;
        exec_qty = qty_invalid;
        leaves_qty = order.qty;
      })
  ]
