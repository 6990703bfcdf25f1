-- ===== src/Trading/OrderManager/States.antt =====
-- What one call of the order manager (trading/strategy/order_manager.h) may do to an order.
use low_latency_electronic_t.Prelude.{
  ℕ, ◌<◌, ◌≡◌, ◌≢◌, ◌⊎◌, inl, inr, refl, ℤ, true, some, List, [], ◌∷◌, ◌++◌, arith, Bool-cases,
  ltb_ℤ, beq_ℤ,
}
use low_latency_electronic_t.Common.Types.{Side, price_invalid, me_max_tickers}
use low_latency_electronic_t.Exchange.Messages.{ClientRequestType, MeClientRequest}
use low_latency_electronic_t.Trading.Risk.{RiskCheckResult}
use low_latency_electronic_t.Trading.OrderManager.{
  OrderManager, OmOrderState, OmOrder, order_of, move_live, move_dead, move_order, cancel_live,
  cancel_orders, price_delta,
}

-- A request for a new order of the given data.
abbrev pub new_request : OrderManager → ℕ → ℤ → Side → ℕ → MeClientRequest
new_request m t price s qty = record {
  type = ClientRequestType.new;
  client_id = m.client_id;
  ticker_id = t;
  order_id = m.next_order_id;
  side = s;
  price = price;
  qty = qty;
}

-- There is no order at a side: none was ever sent, or the last one is done.
abbrev pub Idle : OmOrder → Type 0
Idle o = (o.order_state ≡ OmOrderState.invalid) ⊎ (o.order_state ≡ OmOrderState.dead)

-- What `moveOrder` did: nothing, a new order, or a cancel.
pub data Moved (check : ℕ → Side → ℕ → RiskCheckResult) (t : ℕ) (price : ℤ) (s : Side) (qty : ℕ)
    (m m' : OrderManager) : Type 0 where
  kept : m' ≡ m → Moved check t price s qty m m'
  sent :
      Idle (order_of m t s)
      → price ≢ price_invalid
      → check t s qty ≡ RiskCheckResult.allowed
      → m'.requests ≡ new_request m t price s qty ∷ m.requests
      → (order_of m' t s).order_state ≡ OmOrderState.pending_new
      → (order_of m' t s).order_id ≡ m.next_order_id
      → Moved check t price s qty m m'
  canceled :
      (r : MeClientRequest)
      → (order_of m t s).order_state ≡ OmOrderState.live
      → ltb_ℤ (m.hysteresis_ticks t) (price_delta (order_of m t s).price price) ≡ true
      → m'.requests ≡ r ∷ m.requests
      → r.type ≡ ClientRequestType.cancel
      → r.order_id ≡ (order_of m t s).order_id
      → (order_of m' t s).order_state ≡ OmOrderState.pending_cancel
      → Moved check t price s qty m m'

module _ (check : ℕ → Side → ℕ → RiskCheckResult) (t : ℕ) (price : ℤ) (s : Side) (qty : ℕ) where
  move_live-Moved :
      (m : OrderManager)
      → (order_of m t s).order_state ≡ OmOrderState.live
      → Moved check t price s qty m (move_live t price s m)
  unfolding move_live
  move_live-Moved m live =
      elim (Bool-cases (ltb_ℤ (m.hysteresis_ticks t) (price_delta (order_of m t s).price price))) [
        | inl far ↦ rw far (canceled _ live far refl refl refl (ground arith))
        | inr near ↦ rw near (kept refl)
      ]

  Allowed-cases :
      (r : RiskCheckResult) → (r ≡ RiskCheckResult.allowed) ⊎ (r ≢ RiskCheckResult.allowed)
  Allowed-cases RiskCheckResult.allowed = inl refl
  Allowed-cases RiskCheckResult.invalid = inr (λ e. cc)
  Allowed-cases RiskCheckResult.order_too_large = inr (λ e. cc)
  Allowed-cases RiskCheckResult.position_too_large = inr (λ e. cc)
  Allowed-cases RiskCheckResult.loss_too_large = inr (λ e. cc)

  move_dead-refused :
      (m : OrderManager)
      → check t s qty ≢ RiskCheckResult.allowed
      → move_dead check t price s qty m ≡ m
  unfolding move_dead
  move_dead-refused m h = ground arith

  move_dead-Moved :
      (m : OrderManager)
      → Idle (order_of m t s)
      → Moved check t price s qty m (move_dead check t price s qty m)
  unfolding move_dead
  move_dead-Moved m idle = elim (Bool-cases (beq_ℤ price price_invalid)) [
    | inl none_given ↦ rw none_given (kept refl)
    | inr given ↦ elim (Allowed-cases (check t s qty)) [
      | inl ok ↦
          rw (given, ok) (sent idle (λ e. ground arith) ok refl (ground arith) (ground arith))
      | inr refused ↦ kept (move_dead-refused m refused)
    ]
  ]

  -- `moveOrder` does one of three things. It keeps everything; or it sends one request for a new
  -- order, with the next id, and this only if there was no order, there is a price and the risk
  -- check allows it, and the order is then waiting for its acceptance; or it sends one request to
  -- cancel the order, and this only if the order was live and its price is further from the new
  -- one than the dead zone, and the order is then waiting for its cancellation.
  pub move_order-Moved :
      (m : OrderManager) → Moved check t price s qty m (move_order check t price s qty m)
  unfolding move_order
  move_order-Moved m = go (order_of m t s).order_state refl
    where
      go :
          (st : OmOrderState)
          → (order_of m t s).order_state ≡ st
          → Moved check t price s qty m (move_order check t price s qty m)
      go OmOrderState.live e = rw (e, move_order) (move_live-Moved m e)
      go OmOrderState.invalid e = rw (e, move_order) (move_dead-Moved m (inl e))
      go OmOrderState.dead e = rw (e, move_order) (move_dead-Moved m (inr e))
      go OmOrderState.pending_new e = rw (e, move_order) (kept refl)
      go OmOrderState.pending_cancel e = rw (e, move_order) (kept refl)

-- An order after `cancelOrders`, and the request that it takes.
abbrev pub pulled : OmOrder → OmOrder
pulled o = elim o.order_state [
  | OmOrderState.live ↦ record o { order_state = OmOrderState.pending_cancel }
  | _ ↦ o
]

abbrev pub asked : ℕ → OmOrder → List MeClientRequest
asked client_id o = elim o.order_state [
  | OmOrderState.live ↦
      record {
        type = ClientRequestType.cancel;
        client_id = client_id;
        ticker_id = o.ticker_id;
        order_id = o.order_id;
        side = o.side;
        price = o.price;
        qty = o.qty;
      }
      ∷ []
  | _ ↦ []
]

-- `cancelOrders` sends one request to cancel each live order of the ticker, that to buy first, and
-- no other request. Each of these orders then waits for its cancellation and is else as it was, and
-- any other order of the ticker stays as it was. No new order id is taken, and the orders of the
-- other tickers stay as they were.
pub cancel_orders_lem :
    (t : ℕ) (m : OrderManager)
    → t < me_max_tickers
    → (m' : OrderManager) × (cancel_orders t m ≡ some m')
      × (m'.requests
          ≡ asked m.client_id (order_of m t Side.sell)
            ++ (asked m.client_id (order_of m t Side.buy) ++ m.requests))
      × (order_of m' t Side.buy ≡ pulled (order_of m t Side.buy))
      × (order_of m' t Side.sell ≡ pulled (order_of m t Side.sell))
      × (m'.next_order_id ≡ m.next_order_id)
      × ((u : ℕ) (s : Side) → u ≢ t → order_of m' u s ≡ order_of m u s)
unfolding cancel_orders
cancel_orders_lem t m h = (
  cancel_live t Side.sell (cancel_live t Side.buy m),
  ground arith,
  ground arith,
  ground arith,
  ground arith,
  ground arith,
  λ u s ne. ground arith,
)
