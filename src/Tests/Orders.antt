-- ===== src/Tests/Orders.antt =====
-- The order manager and the risk check (trading/strategy/) at concrete inputs.
use low_latency_electronic_t.Prelude.{
  ◌++◌, ℕ, ◌≡◌, ◌≢◌, ◌↔◌, refl, pos, Option, none, some, List, [], ◌∷◌, arith, ltb,
}
use low_latency_electronic_t.Common.Types.{Side}
use low_latency_electronic_t.Exchange.Messages.{ClientResponseType, MeClientResponse}
use low_latency_electronic_t.Trading.Risk.{
  RiskInfo, RiskCheckResult, check_pre_trade_risk, Within, check-allowed,
}
use low_latency_electronic_t.Trading.OrderManager.{
  OrderManager, OmOrderState, init, order_of, put, new_order, move_order, move_orders,
  cancel_orders, on_order_update,
}
use low_latency_electronic_t.Trading.OrderManager.States.{
  Moved, move_order-Moved, pulled, asked, cancel_orders_lem,
}
use low_latency_electronic_t.Trading.OrderManager.Requests.{
  Call, updates, moves, pulls, run, step, FreshIds, run-init-FreshIds,
}

abbrev long : RiskInfo ℕ
long = record {
  position = pos 8;
  total_pnl = 5;
  max_order_size = 10;
  max_position = 12;
  max_loss = 1;
}

check-allowed_example :
    ((check_pre_trade_risk ltb long Side.buy 5 ≡ some RiskCheckResult.allowed)
      ↔ Within ltb long Side.buy 5)
    × ((check_pre_trade_risk ltb long Side.sell 5 ≡ some RiskCheckResult.allowed)
        ↔ Within ltb long Side.sell 5)
    × (check_pre_trade_risk ltb long Side.buy 5 ≢ none)
    × (check_pre_trade_risk ltb long Side.sell 5 ≢ none)
check-allowed_example = check-allowed ltb long 5 (omega arith) (omega arith)

abbrev allow_all : ℕ → Side → ℕ → RiskCheckResult
allow_all t s q = RiskCheckResult.allowed

abbrev first : OrderManager
first = init 4

move_order-Moved_example :
    Moved allow_all 1 (pos 100) Side.buy 5 first (move_order allow_all 1 (pos 100) Side.buy 5 first)
move_order-Moved_example = move_order-Moved allow_all 1 (pos 100) Side.buy 5 first

-- Both orders of ticker 1 wait for their acceptance.
abbrev waiting : OrderManager
waiting = new_order 1 (pos 101) Side.sell 5 (new_order 1 (pos 99) Side.buy 5 first)

-- The order to buy of ticker 1 is live, that to sell waits for its acceptance.
abbrev half_live : OrderManager
half_live =
    put waiting 1 Side.buy
      (record (order_of waiting 1 Side.buy) { order_state = OmOrderState.live })

cancel_orders_lem_example :
    (m' : OrderManager) × (cancel_orders 1 half_live ≡ some m')
    × (m'.requests
        ≡ asked half_live.client_id (order_of half_live 1 Side.sell)
          ++ (asked half_live.client_id (order_of half_live 1 Side.buy) ++ half_live.requests))
    × (order_of m' 1 Side.buy ≡ pulled (order_of half_live 1 Side.buy))
    × (order_of m' 1 Side.sell ≡ pulled (order_of half_live 1 Side.sell))
    × (m'.next_order_id ≡ half_live.next_order_id)
    × ((u : ℕ) (s : Side) → u ≢ 1 → order_of m' u s ≡ order_of half_live u s)
cancel_orders_lem_example = cancel_orders_lem 1 half_live (omega arith)

abbrev accepted_buy : MeClientResponse
accepted_buy = record {
  type = ClientResponseType.accepted;
  client_id = 4;
  ticker_id = 1;
  client_order_id = 1;
  market_order_id = 9;
  side = Side.buy;
  price = pos 99;
  exec_qty = 0;
  leaves_qty = 5;
}

abbrev history : List Call
history = moves allow_all 1 (pos 99) (pos 101) 5 ∷ updates accepted_buy ∷ pulls 1 ∷ []

abbrev after_history : Option OrderManager
after_history = run history (init 4)

abbrev or_first : Option OrderManager → OrderManager
or_first none = first
or_first (some m) = m

run-init-FreshIds_example : FreshIds (or_first after_history)
unfolding run step init move_orders on_order_update cancel_orders move_order
run-init-FreshIds_example = run-init-FreshIds 4 history {m = or_first after_history} refl
