-- ===== src/Trading/OrderManager/Requests.antt =====
-- The order ids of new orders (trading/strategy/order_manager.h) over any history of calls.
use mathlib.Core.Option.{some-injective}
use low_latency_electronic_t.Prelude.{
  ℕ, ◌<◌, ◌≡◌, subst, inl, inr, ℤ, Bool, true, false, Option, none, some, List, [], ◌∷◌, arith,
  Option-cases, if◌then◌else◌, ltb,
}
use low_latency_electronic_t.Common.Types.{Side, me_max_tickers}
use low_latency_electronic_t.Exchange.Messages.{
  ClientRequestType, MeClientRequest, MeClientResponse,
}
use low_latency_electronic_t.Trading.Risk.{RiskCheckResult}
use low_latency_electronic_t.Trading.OrderManager.{
  OrderManager, init, on_order_update, new_order, cancel_order, set_hysteresis_ticks, move_order,
  move_orders, cancel_live, cancel_orders,
}

-- A call from outside. The answers of the risk check may differ from call to call.
pub data Call : Type 0 where
  updates : MeClientResponse → Call
  hysteresis : ℕ → ℤ → Call
  moves : (ℕ → Side → ℕ → RiskCheckResult) → ℕ → ℤ → ℤ → ℕ → Call
  pulls : ℕ → Call

unfoldable pub step : Call → OrderManager → Option OrderManager
step (updates r) m = on_order_update r m
step (hysteresis t ticks) m = set_hysteresis_ticks t ticks m
step (moves check t bid ask clip) m = move_orders check t bid ask clip m
step (pulls t) m = cancel_orders t m

unfoldable pub run : List Call → OrderManager → Option OrderManager
run [] m = some m
run (c ∷ cs) m = elim (step c m) [ none ↦ none | some m' ↦ run cs m' ]

-- The ids of the requests for new orders fall along the list and stay below the bound.
abbrev pub NewBelow : ℕ → List MeClientRequest → Type 0
NewBelow n [] = Unit {0}
NewBelow n (r ∷ rs) = elim r.type [
  | ClientRequestType.new ↦ (r.order_id < n) × NewBelow r.order_id rs
  | _ ↦ NewBelow n rs
]

abbrev pub FreshIds : OrderManager → Type 0
FreshIds m = NewBelow m.next_order_id m.requests

new_order-FreshIds :
    (t : ℕ) (price : ℤ) (s : Side) (q : ℕ) (m : OrderManager)
    → FreshIds m
    → FreshIds (new_order t price s q m)
unfolding new_order
new_order-FreshIds t price s q m v = (omega arith, v)

cancel_order-FreshIds :
    (t : ℕ) (s : Side) (m : OrderManager) → FreshIds m → FreshIds (cancel_order t s m)
unfolding cancel_order
cancel_order-FreshIds t s m v = v

move_order-FreshIds :
    (check : ℕ → Side → ℕ → RiskCheckResult) (t : ℕ) (price : ℤ) (s : Side) (q : ℕ)
    (m : OrderManager)
    → FreshIds m
    → FreshIds (move_order check t price s q m)
unfolding move_order
move_order-FreshIds check t price s q m v =
    ground (arith, new_order-FreshIds t price s q m, cancel_order-FreshIds t s m)

cancel_live-FreshIds :
    (t : ℕ) (s : Side) (m : OrderManager) → FreshIds m → FreshIds (cancel_live t s m)
cancel_live-FreshIds t s m v = ground (arith, cancel_order-FreshIds t s m)

-- What passes the check of a ticker id.
guarded {ℓ} : {A : Type ℓ} (b : Bool) {x y : A} → (if b then some x else none) ≡ some y → x ≡ y
guarded true {x} {y} e = some-injective x y e
guarded false {x} {y} e = cc

-- Every call keeps the ids of the new orders sent so far distinct and below the next one.
step-FreshIds :
    (c : Call) (m : OrderManager) {m' : OrderManager}
    → FreshIds m
    → step c m ≡ some m'
    → FreshIds m'
unfolding step on_order_update set_hysteresis_ticks move_orders cancel_orders
step-FreshIds (updates r) m v e = subst FreshIds (guarded (ltb r.ticker_id me_max_tickers) e) v
step-FreshIds (hysteresis t ticks) m v e = subst FreshIds (guarded (ltb t me_max_tickers) e) v
step-FreshIds (moves check t bid ask clip) m v e =
    subst FreshIds (guarded (ltb t me_max_tickers) e) (
      move_order-FreshIds check t ask Side.sell clip (move_order check t bid Side.buy clip m)
        (move_order-FreshIds check t bid Side.buy clip m v))
step-FreshIds (pulls t) m v e = subst FreshIds (guarded (ltb t me_max_tickers) e) (
    cancel_live-FreshIds t Side.sell (cancel_live t Side.buy m)
      (cancel_live-FreshIds t Side.buy m v))

run-FreshIds :
    (cs : List Call) (m : OrderManager) {m' : OrderManager}
    → FreshIds m
    → run cs m ≡ some m'
    → FreshIds m'
unfolding run
run-FreshIds [] m v e = subst FreshIds (some-injective _ _ e) v
run-FreshIds (c ∷ cs) m v e = elim (Option-cases (step c m)) [
  | inl d ↦ absurd (ground arith)
  | inr (m', d) ↦ run-FreshIds cs m' (step-FreshIds c m v d) (rw (d, run) at e)
]

-- After any history of calls, whatever the responses and the answers of the risk check were, the
-- requests for new orders sent so far carry distinct ids, in the order in which they were sent,
-- all below the next one.
pub run-init-FreshIds :
    (client : ℕ) (cs : List Call) {m : OrderManager} → run cs (init client) ≡ some m → FreshIds m
unfolding init
run-init-FreshIds client cs e = run-FreshIds cs (init client) tt e
