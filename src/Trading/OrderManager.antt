-- ===== src/Trading/OrderManager.antt =====
-- trading/strategy/om_order.h and trading/strategy/order_manager.h: one order for each ticker and
-- side. The risk check is an argument: its answers change with the position. A function that
-- reaches an `at` out of range ends the process: `none`.
pub mod Requests
pub mod States
use low_latency_electronic_t.Prelude.{
  ℕ, ◌+◌, ◌-◌, ◌%◌, ◌^◌, ℤ, pos, nat_abs, ◌-ℤ◌, Bool, true, false, Option, none, some, List, [],
  ◌∷◌, ◌==◌, ltb, ltb_ℤ, beq_ℤ, if◌then◌else◌, update,
}
use low_latency_electronic_t.Common.Types.{
  Side, side_to_index, me_max_tickers, ticker_id_invalid, order_id_invalid, price_invalid,
  qty_invalid,
}
use low_latency_electronic_t.Exchange.Messages.{
  ClientRequestType, MeClientRequest, ClientResponseType, MeClientResponse,
}
use low_latency_electronic_t.Trading.Risk.{RiskCheckResult}

pub data OmOrderState : Type 0 where
  invalid pending_new live pending_cancel dead : OmOrderState

pub record OmOrder : Type 0 where
  pub ticker_id : ℕ
  pub order_id : ℕ
  pub side : Side
  pub price : ℤ
  pub qty : ℕ
  pub order_state : OmOrderState

abbrev pub default_om_order : OmOrder
default_om_order = record {
  ticker_id = ticker_id_invalid;
  order_id = order_id_invalid;
  side = Side.invalid;
  price = price_invalid;
  qty = qty_invalid;
  order_state = OmOrderState.invalid;
}

-- `requests` is what went to `sendClientRequest`, the newest first.
pub record OrderManager : Type 0 where
  pub client_id : ℕ
  pub ticker_side_order : ℕ → ℕ → OmOrder
  pub next_order_id : ℕ
  pub hysteresis_ticks : ℕ → ℤ
  pub requests : List MeClientRequest

unfoldable pub init : ℕ → OrderManager
init client_id = record {
  client_id = client_id;
  ticker_side_order = λ t s. default_om_order;
  next_order_id = 1;
  hysteresis_ticks = λ t. pos 0;
  requests = [];
}

-- The order at a ticker and side, and a write to it.
abbrev pub order_of : OrderManager → ℕ → Side → OmOrder
order_of m t s = m.ticker_side_order t (side_to_index s)

abbrev pub put : OrderManager → ℕ → Side → OmOrder → OrderManager
put m t s o = record m {
  ticker_side_order =
      update m.ticker_side_order t (update (m.ticker_side_order t) (side_to_index s) o);
}

abbrev pub with_state : OmOrder → OmOrderState → OmOrder
with_state o st = record o { order_state = st }

-- What a response does to the order of its ticker and side.
unfoldable pub apply_response : MeClientResponse → OmOrder → OmOrder
apply_response r o = elim r.type [
  | ClientResponseType.accepted ↦ with_state o OmOrderState.live
  | ClientResponseType.canceled ↦ with_state o OmOrderState.dead
  | ClientResponseType.filled ↦
      let filled : OmOrder = record o { qty = r.leaves_qty } in
      if r.leaves_qty == 0 then with_state filled OmOrderState.dead else filled
  | ClientResponseType.cancel_rejected ↦ o
  | ClientResponseType.invalid ↦ o
]

unfoldable pub on_order_update : MeClientResponse → OrderManager → Option OrderManager
unfolding apply_response
on_order_update r m =
    if ltb r.ticker_id me_max_tickers
    then some (put m r.ticker_id r.side (apply_response r (order_of m r.ticker_id r.side)))
    else none

-- `newOrder` on the order at `ticker_id` and `side`.
unfoldable pub new_order : ℕ → ℤ → Side → ℕ → OrderManager → OrderManager
new_order ticker_id price side qty m =
    let request : MeClientRequest = record {
      type = ClientRequestType.new;
      client_id = m.client_id;
      ticker_id = ticker_id;
      order_id = m.next_order_id;
      side = side;
      price = price;
      qty = qty;
    } in
    let order : OmOrder = record {
      ticker_id = ticker_id;
      order_id = m.next_order_id;
      side = side;
      price = price;
      qty = qty;
      order_state = OmOrderState.pending_new;
    } in
    record (put m ticker_id side order) {
      next_order_id = m.next_order_id + 1;
      requests = request ∷ m.requests;
    }

-- `cancelOrder` on the order at `ticker_id` and `side`: the request holds what the order holds.
unfoldable pub cancel_order : ℕ → Side → OrderManager → OrderManager
cancel_order ticker_id side m =
    let order = order_of m ticker_id side in
    let request : MeClientRequest = record {
      type = ClientRequestType.cancel;
      client_id = m.client_id;
      ticker_id = order.ticker_id;
      order_id = order.order_id;
      side = order.side;
      price = order.price;
      qty = order.qty;
    } in
    record (put m ticker_id side (with_state order OmOrderState.pending_cancel)) {
      requests = request ∷ m.requests;
    }

unfoldable pub set_hysteresis_ticks : ℕ → ℤ → OrderManager → Option OrderManager
set_hysteresis_ticks ticker_id ticks m =
    if ltb ticker_id me_max_tickers
    then some (record m { hysteresis_ticks = update m.hysteresis_ticks ticker_id ticks })
    else none

-- The distance of a new price from the order's price, or `Price_INVALID` for no price.
unfoldable pub price_delta : ℤ → ℤ → ℤ
price_delta order_price price =
    if beq_ℤ price price_invalid then price_invalid else pos (nat_abs (order_price -ℤ price))

-- `moveOrder` for a live order: it is cancelled if its price is too far off.
unfoldable pub move_live : ℕ → ℤ → Side → OrderManager → OrderManager
unfolding price_delta cancel_order
move_live ticker_id price side m =
    if ltb_ℤ (m.hysteresis_ticks ticker_id) (price_delta (order_of m ticker_id side).price price)
    then cancel_order ticker_id side m
    else m

-- `moveOrder` where there is no order: a new one is sent if there is a price and the risk check
-- allows it.
unfoldable pub move_dead :
    (ℕ → Side → ℕ → RiskCheckResult) → ℕ → ℤ → Side → ℕ → OrderManager → OrderManager
unfolding new_order
move_dead check ticker_id price side qty m =
    if beq_ℤ price price_invalid then m else elim (check ticker_id side qty) [
      | RiskCheckResult.allowed ↦ new_order ticker_id price side qty m
      | _ ↦ m
    ]

-- `moveOrder` on the order at `ticker_id` and `side`.
unfoldable pub move_order :
    (ℕ → Side → ℕ → RiskCheckResult) → ℕ → ℤ → Side → ℕ → OrderManager → OrderManager
unfolding move_live move_dead
move_order check ticker_id price side qty m = elim (order_of m ticker_id side).order_state [
  | OmOrderState.live ↦ move_live ticker_id price side m
  | OmOrderState.invalid ↦ move_dead check ticker_id price side qty m
  | OmOrderState.dead ↦ move_dead check ticker_id price side qty m
  | OmOrderState.pending_new ↦ m
  | OmOrderState.pending_cancel ↦ m
]

unfoldable pub move_orders :
    (ℕ → Side → ℕ → RiskCheckResult) → ℕ → ℤ → ℤ → ℕ → OrderManager → Option OrderManager
unfolding move_order
move_orders check ticker_id bid_price ask_price clip m =
    if ltb ticker_id me_max_tickers
    then some (
        move_order check ticker_id ask_price Side.sell clip
          (move_order check ticker_id bid_price Side.buy clip m))
    else none

abbrev pub cancel_live : ℕ → Side → OrderManager → OrderManager
cancel_live ticker_id side m = elim (order_of m ticker_id side).order_state [
  | OmOrderState.live ↦ cancel_order ticker_id side m
  | _ ↦ m
]

unfoldable pub cancel_orders : ℕ → OrderManager → Option OrderManager
unfolding cancel_order
cancel_orders ticker_id m =
    if ltb ticker_id me_max_tickers
    then some (cancel_live ticker_id Side.sell (cancel_live ticker_id Side.buy m))
    else none
