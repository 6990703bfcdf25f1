-- ===== src/Exchange/Matcher/Accounts.antt =====
-- The quantity of a new order (`add` of exchange/matcher/me_order_book.cpp) in its market updates.
use low_latency_electronic_t.Prelude.{
  ℕ, ◌+◌, ◌-◌, ◌%◌, ◌^◌, ℤ, ◌≡◌, ◌⊎◌, refl, ap, some, List, [], ◌∷◌, ◌++◌, arith, Bool-cases, ◌==◌,
  min, inl, inr,
}
use low_latency_electronic_t.Common.Types.{Side}
use low_latency_electronic_t.Exchange.Messages.{MarketUpdateType, MeMarketUpdate}
use low_latency_electronic_t.Exchange.Matcher.Book.{response, MeOrder, MeOrderBook}
use low_latency_electronic_t.Exchange.Matcher.Fills.{left_after, fills, settled, rest_of}
use low_latency_electronic_t.Exchange.Matcher.Trades.{weigh, weigh-++, trade_qty, fills-traded}
use low_latency_electronic_t.Exchange.Matcher.NewOrder.{add_lem, accepted, rest_messages}
use low_latency_electronic_t.Exchange.Matcher.Match.{add}

-- The quantity of an update that is a TRADE or an ADD.
abbrev pub accounted_qty : MeMarketUpdate → ℕ
accounted_qty u = elim u.type [
  | MarketUpdateType.trade ↦ u.qty
  | MarketUpdateType.add ↦ u.qty
  | _ ↦ 0
]

module _ (ticker_id client_id : ℕ) (side : Side) (client_order_id market_order_id : ℕ) where
  settled-same :
      (q : ℕ) (o : MeOrder)
      → accounted_qty (settled ticker_id q o) ≡ trade_qty (settled ticker_id q o)
  settled-same q o = elim (Bool-cases (o.qty == 0)) [ inl h ↦ rw h refl | inr h ↦ rw h refl ]

  -- Fills publish no ADD.
  fills-same :
      (leaves : ℕ) (os : List MeOrder)
      → weigh accounted_qty
          (fills ticker_id client_id side client_order_id market_order_id leaves os)
        ≡ weigh trade_qty (fills ticker_id client_id side client_order_id market_order_id leaves os)
  unfolding fills
  fills-same leaves [] = refl
  fills-same leaves (o ∷ os) = omega (
    arith,
    settled-same o.qty (record o { qty = rest_of leaves o }),
    fills-same (leaves - min leaves o.qty) os,
  )

module _ (client_id client_order_id ticker_id : ℕ) (side : Side) (price : ℤ) where
  rest_messages-accounted :
      (moid left priority : ℕ)
      → weigh accounted_qty
          (rest_messages client_id client_order_id ticker_id side price moid left priority)
        ≡ left
  rest_messages-accounted moid left priority = ground arith

  -- If `add` of an order to buy or to sell returns, its whole quantity is published once, as traded
  -- or as on the book: the quantities of the TRADE and ADD updates that it sends sum up to it.
  pub add-accounted_qty :
      (qty : ℕ) (b b' : MeOrderBook)
      → (side ≡ Side.buy) ⊎ (side ≡ Side.sell)
      → add client_id client_order_id ticker_id side price qty b ≡ some (tt, b')
      → weigh accounted_qty b'.sent ≡ weigh accounted_qty b.sent + qty
  add-accounted_qty qty b b' h e =
      let (os, priority, sent, _, _) =
        add_lem client_id client_order_id ticker_id side price qty b b' h e in
      let moid = b.next_market_order_id in
      let fs = fills ticker_id client_id side client_order_id (moid % 2 ^ 32) qty os in
      let left = left_after qty os in
      let rest = rest_messages client_id client_order_id ticker_id side price moid left priority in
      omega (
        arith,
        ap (weigh accounted_qty) sent,
        weigh-++ accounted_qty b.sent (
            response (accepted client_id client_order_id ticker_id side price moid qty)
            ∷ (fs ++ rest)),
        weigh-++ accounted_qty fs rest,
        fills-same ticker_id client_id side client_order_id (moid % 2 ^ 32) qty os,
        fills-traded ticker_id client_id side client_order_id (moid % 2 ^ 32) qty os,
        rest_messages-accounted moid left priority,
      )
