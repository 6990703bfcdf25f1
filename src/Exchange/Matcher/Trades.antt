-- ===== src/Exchange/Matcher/Trades.antt =====
-- `checkForMatch` of exchange/matcher/me_order_book.cpp as a whole: what it did, and the quantity
-- that it traded.
use low_latency_electronic_t.Prelude.{
  ℕ, suc, ◌+◌, ◌-◌, ◌%◌, ◌^◌, ℤ, ◌≡◌, ◌⊎◌, refl, ap, ◌∙◌, some, List, [], ◌∷◌, ◌++◌, inl, inr,
  arith, Bool-cases, ◌==◌, min,
}
use low_latency_electronic_t.Common.Types.{Side}
use low_latency_electronic_t.Exchange.Messages.{MarketUpdateType, MeMarketUpdate}
use low_latency_electronic_t.Exchange.Matcher.Book.{Sent, response, market, MeOrder, MeOrderBook}
use low_latency_electronic_t.Exchange.Matcher.Fills.{
  Done, left_after, fill_messages, fills, Run, match_loop-Run, settled, rest_of,
}
use low_latency_electronic_t.Exchange.Matcher.Match.{check_for_match, match_loop}

-- If `checkForMatch` of an order to buy or to sell returns, what it did was a list of fills with
-- passive orders that cross its price, each met while something of the order was left, and it ended
-- with the order filled, the other side empty, or a first order there that does not cross. It sent
-- the messages of these fills and no other, and took no market order id; the messages to the
-- aggressor carry its market order id modulo 2^32.
pub check_for_match-Run :
    (client_id client_order_id ticker_id : ℕ) (side : Side) (price : ℤ) (qty market_order_id : ℕ)
    (b : MeOrderBook) {left : ℕ} {b' : MeOrderBook}
    → (side ≡ Side.buy) ⊎ (side ≡ Side.sell)
    → check_for_match client_id client_order_id ticker_id side price qty market_order_id b
      ≡ some (left, b')
    → Run ticker_id client_id side client_order_id (market_order_id % 2 ^ 32) price qty left b b'
unfolding check_for_match
check_for_match-Run client_id client_order_id ticker_id side price qty moid b {left} {b'} = go side
  where
    id : ℕ
    id = moid % 2 ^ 32

    go :
        (s : Side)
        → (s ≡ Side.buy) ⊎ (s ≡ Side.sell)
        → check_for_match client_id client_order_id ticker_id s price qty moid b ≡ some (left, b')
        → Run ticker_id client_id s client_order_id id price qty left b b'
    go Side.buy h e =
        match_loop-Run ticker_id client_id Side.buy client_order_id id price (b.order_pool.size + 2)
          qty b e
    go Side.sell h e =
        match_loop-Run ticker_id client_id Side.sell client_order_id id price
          (b.order_pool.size + 2) qty b e
    go Side.invalid h e = absurd (ground arith)
    go Side.max h e = absurd (ground arith)

-- The loop does nothing for an order that is filled or does not cross.
pub match_loop-Done :
    (client_id client_order_id ticker_id : ℕ) (side : Side) (price : ℤ) (id fuel qty : ℕ)
    (b : MeOrderBook)
    → Done side price qty b
    → match_loop (suc fuel) client_id client_order_id ticker_id side price id qty b ≡ some (qty, b)
unfolding match_loop
match_loop-Done client_id client_order_id ticker_id side price id fuel qty b (inl h) = ground arith
match_loop-Done client_id client_order_id ticker_id side price id fuel qty b (inr (inl h)) =
    ground arith
match_loop-Done client_id client_order_id ticker_id side price id fuel qty b
      (inr (inr (l, p, h, f, x))) =
    ground arith

-- The quantity of an update, if it is a TRADE.
abbrev pub trade_qty : MeMarketUpdate → ℕ
trade_qty u = elim u.type [ MarketUpdateType.trade ↦ u.qty | _ ↦ 0 ]

-- The sum of a measure over the updates in a list of messages.
abbrev pub weigh : (MeMarketUpdate → ℕ) → List Sent → ℕ
weigh w [] = 0
weigh w (response r ∷ l) = weigh w l
weigh w (market u ∷ l) = w u + weigh w l

pub weigh-++ : (w : MeMarketUpdate → ℕ) (l m : List Sent) → weigh w (l ++ m) ≡ weigh w l + weigh w m
weigh-++ w [] m = omega arith
weigh-++ w (response r ∷ l) m = weigh-++ w l m
weigh-++ w (market u ∷ l) m = ap (λ n. w u + n) (weigh-++ w l m) ∙ omega arith

-- The quantity traded in a list of messages.
abbrev pub traded : List Sent → ℕ
traded l = weigh trade_qty l

settled-trade_qty : (t q : ℕ) (o : MeOrder) → trade_qty (settled t q o) ≡ 0
settled-trade_qty t q o = elim (Bool-cases (o.qty == 0)) [ inl h ↦ rw h refl | inr h ↦ rw h refl ]

module _ (ticker_id client_id : ℕ) (side : Side) (client_order_id market_order_id : ℕ) where
  fill_messages-traded :
      (leaves : ℕ) (o : MeOrder)
      → traded (fill_messages ticker_id client_id side client_order_id market_order_id leaves o)
        ≡ min leaves o.qty
  fill_messages-traded leaves o =
      ap (λ n. min leaves o.qty + (n + 0))
        (settled-trade_qty ticker_id o.qty (record o { qty = rest_of leaves o }))
      ∙ omega arith

  -- What the fills traded and what is left make up the quantity of the aggressor.
  pub fills-traded :
      (leaves : ℕ) (os : List MeOrder)
      → traded (fills ticker_id client_id side client_order_id market_order_id leaves os)
          + left_after leaves os
        ≡ leaves
  unfolding fills left_after
  fills-traded leaves [] = omega arith
  fills-traded leaves (o ∷ os) = omega (
    arith,
    weigh-++ trade_qty
        (fill_messages ticker_id client_id side client_order_id market_order_id leaves o)
        (fills ticker_id client_id side client_order_id market_order_id (leaves - min leaves o.qty)
          os),
    fill_messages-traded leaves o,
    fills-traded (leaves - min leaves o.qty) os,
  )

-- No quantity is made or lost when `checkForMatch` of an order to buy or to sell returns: what it
-- adds to the quantity of the TRADE updates and what it leaves make up the quantity of the order.
pub check_for_match-traded :
    (client_id client_order_id ticker_id : ℕ) (side : Side) (price : ℤ) (qty market_order_id : ℕ)
    (b : MeOrderBook) {left : ℕ} {b' : MeOrderBook}
    → (side ≡ Side.buy) ⊎ (side ≡ Side.sell)
    → check_for_match client_id client_order_id ticker_id side price qty market_order_id b
      ≡ some (left, b')
    → traded b'.sent + left ≡ traded b.sent + qty
check_for_match-traded client_id client_order_id ticker_id side price qty moid b {left} {b'} h e =
    let (os, sent, after, _, _) =
      check_for_match-Run client_id client_order_id ticker_id side price qty moid b h e in
    let id = moid % 2 ^ 32 in
    omega (
      arith,
      ap (λ (f : List Sent × ℕ). traded f.0) sent,
      weigh-++ trade_qty b.sent (fills ticker_id client_id side client_order_id id qty os),
      fills-traded ticker_id client_id side client_order_id id qty os,
      after,
    )
