-- ===== src/Exchange/Matcher/NewOrder.antt =====
-- `add` of exchange/matcher/me_order_book.cpp: everything that it sends.
use low_latency_electronic_t.Prelude.{
  ℕ, ◌+◌, ◌%◌, ◌^◌, ℤ, ◌≡◌, ◌⊎◌, sym, ap, ◌∙◌, some, none, List, [], ◌∷◌, ◌++◌, list_laws,
  append-nil, inl, inr, arith, Bool-cases, ◌==◌, if◌then◌else◌,
}
use low_latency_electronic_t.Common.Types.{Side}
use low_latency_electronic_t.Exchange.Messages.{
  ClientResponseType, MeClientResponse, MarketUpdateType, MeMarketUpdate,
}
use low_latency_electronic_t.Exchange.Matcher.Book.{
  pure, Sent, response, market, generate_new_market_order_id, allocate_order, MeOrder, MeOrderBook,
}
use low_latency_electronic_t.Exchange.Matcher.Silent.{frame, >>=-inv}
use low_latency_electronic_t.Exchange.Matcher.Silent.Join.{
  add_order-frame, allocate_order-frame, get_next_priority-frame,
}
use low_latency_electronic_t.Exchange.Matcher.Fills.{left_after, Met, fills}
use low_latency_electronic_t.Exchange.Matcher.Trades.{check_for_match-Run}
use low_latency_electronic_t.Exchange.Matcher.Orders.{add_order, get_next_priority}
use low_latency_electronic_t.Exchange.Matcher.Match.{rest_order, add, check_for_match}

module _ (client_id client_order_id ticker_id : ℕ) (side : Side) (price : ℤ) where
  -- The ADD for an order that rests.
  abbrev pub added : ℕ → ℕ → ℕ → MeMarketUpdate
  added market_order_id qty priority = record {
    type = MarketUpdateType.add;
    order_id = market_order_id;
    ticker_id = ticker_id;
    side = side;
    price = price;
    qty = qty;
    priority = priority;
  }

  -- The answer to a new order.
  abbrev pub accepted : ℕ → ℕ → MeClientResponse
  accepted market_order_id qty = record {
    type = ClientResponseType.accepted;
    client_id = client_id;
    ticker_id = ticker_id;
    client_order_id = client_order_id;
    market_order_id = market_order_id;
    side = side;
    price = price;
    exec_qty = 0;
    leaves_qty = qty;
  }

  rest_order-frame :
      (left market_order_id : ℕ) (b : MeOrderBook) {b' : MeOrderBook}
      → rest_order client_id client_order_id ticker_id side price left market_order_id b
        ≡ some (tt, b')
      → (priority : ℕ) × (frame b'
          ≡ (b.sent ++ market (added market_order_id left priority) ∷ [], b.next_market_order_id))
  unfolding rest_order
  rest_order-frame left moid b {b'} e =
      let (priority, b1, n, r1) = >>=-inv (get_next_priority price) _ b e in
      let (p, b2, a, r2) =
        >>=-inv
          (allocate_order (record {
            ticker_id = ticker_id;
            client_id = client_id;
            client_order_id = client_order_id;
            market_order_id = moid;
            side = side;
            price = price;
            qty = left;
            priority = priority;
            prev_order = none;
            next_order = none;
          }))
          _ b1 r1 in
      let (_, b3, j, r3) = >>=-inv (add_order p) _ b2 r2 in
      let same : record b3 { sent = b3.sent ++ market (added moid left priority) ∷ [] } ≡ b' =
        ground arith in
      let silent : frame b3 ≡ frame b =
        add_order-frame p b2 j ∙ allocate_order-frame _ b1 a ∙ get_next_priority-frame price b n in
      (
        priority,
        sym (ap frame same)
            ∙ ap (λ (f : List Sent × ℕ). (f.0 ++ market (added moid left priority) ∷ [], f.1))
                silent,
      )

  -- The end of `add`: an ADD, if something of the order is left.
  abbrev pub rest_messages : ℕ → ℕ → ℕ → List Sent
  rest_messages market_order_id left priority =
      if left == 0 then [] else market (added market_order_id left priority) ∷ []

  settle_rest :
      (left market_order_id : ℕ) (b : MeOrderBook) {b' : MeOrderBook}
      → (if left == 0
            then pure tt
            else rest_order client_id client_order_id ticker_id side price left market_order_id)
          b
        ≡ some (tt, b')
      → (priority : ℕ) × (frame b'
          ≡ (b.sent ++ rest_messages market_order_id left priority, b.next_market_order_id))
  settle_rest left moid b {b'} e = elim (Bool-cases (left == 0)) [
    | inl h ↦ let same : b ≡ b' = ground arith in (0, rw (h, append-nil) (sym (ap frame same)))
    | inr h ↦
        let (priority, sent) = rest_order-frame left moid b (rw h at e) in (priority, rw h sent)
  ]

  -- If `add` of an order to buy or to sell returns, all that it sends is the acceptance with the
  -- full quantity, then the messages of its fills with passive orders that cross its price, each
  -- met while something of it was left, and at the end an ADD of what is left, if anything is. The
  -- acceptance and the ADD carry its market order id, the fills that id modulo 2^32; the next order
  -- gets the next id.
  pub add_lem :
      (qty : ℕ) (b b' : MeOrderBook)
      → (side ≡ Side.buy) ⊎ (side ≡ Side.sell)
      → add client_id client_order_id ticker_id side price qty b ≡ some (tt, b')
      → (os : List MeOrder) × (priority : ℕ) × (b'.sent
          ≡ b.sent
            ++ response (accepted b.next_market_order_id qty)
              ∷ (fills ticker_id client_id side client_order_id
                    (b.next_market_order_id % 2 ^ 32)
                    qty
                    os
                  ++ rest_messages b.next_market_order_id (left_after qty os) priority))
        × (b'.next_market_order_id ≡ b.next_market_order_id + 1)
        × Met side price qty os
  unfolding add generate_new_market_order_id
  add_lem qty b b' h e =
      let moid = b.next_market_order_id in
      let (left, b1, m, r) =
        >>=-inv (check_for_match client_id client_order_id ticker_id side price qty moid) _ _ e in
      let (os, sent, after, each, _) =
        check_for_match-Run client_id client_order_id ticker_id side price qty moid _ h m in
      let (priority, rest) = settle_rest left moid b1 r in
      let rests = rest_messages moid left priority in
      let done = rest ∙ ap (λ (f : List Sent × ℕ). (f.0 ++ rests, f.1)) sent in
      (
        os,
        priority,
        ap (λ (f : List Sent × ℕ). f.0) done ∙ simp (after, list_laws),
        ap (λ (f : List Sent × ℕ). f.1) done,
        each,
      )
