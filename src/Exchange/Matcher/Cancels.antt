-- ===== src/Exchange/Matcher/Cancels.antt =====
-- `cancel` of exchange/matcher/me_order_book.cpp: everything that it sends.
use low_latency_electronic_t.Prelude.{
  ℕ, ◌<◌, ◌≡◌, sym, ap, ◌∙◌, Option, none, some, List, [], ◌∷◌, ◌++◌, list_laws, arith, ltb,
  if◌then◌else◌,
}
use low_latency_electronic_t.Common.Types.{
  Side, me_max_num_clients, me_max_order_ids, order_id_invalid, price_invalid, qty_invalid,
}
use low_latency_electronic_t.Exchange.Messages.{
  ClientResponseType, MeClientResponse, MarketUpdateType, MeMarketUpdate,
}
use low_latency_electronic_t.Exchange.Matcher.Book.{
  Sent, response, market, MeOrder, MeOrderBook, order_at,
}
use low_latency_electronic_t.Exchange.Matcher.Silent.{>>=-inv, remove_order-frame}
use low_latency_electronic_t.Exchange.Matcher.Orders.{remove_order}
use low_latency_electronic_t.Exchange.Matcher.Match.{cancel, find_order}

-- The order that the book knows for a client and one of its ids.
abbrev pub known : ℕ → ℕ → MeOrderBook → Option ℕ
known client_id order_id b =
    if ltb client_id me_max_num_clients then b.cid_oid_to_order client_id order_id else none

abbrev pub cancel_update : ℕ → MeOrder → MeMarketUpdate
cancel_update ticker_id o = record {
  type = MarketUpdateType.cancel;
  order_id = o.market_order_id;
  ticker_id = ticker_id;
  side = o.side;
  price = o.price;
  qty = 0;
  priority = o.priority;
}

abbrev pub canceled : ℕ → ℕ → ℕ → MeOrder → MeClientResponse
canceled client_id order_id ticker_id o = record {
  type = ClientResponseType.canceled;
  client_id = client_id;
  ticker_id = ticker_id;
  client_order_id = order_id;
  market_order_id = o.market_order_id;
  side = o.side;
  price = o.price;
  exec_qty = qty_invalid;
  leaves_qty = o.qty;
}

-- What a cancel of an order sends: the update of the market, then the answer to the client.
abbrev pub cancel_messages : ℕ → ℕ → ℕ → MeOrder → List Sent
cancel_messages client_id order_id ticker_id o =
    market (cancel_update ticker_id o) ∷ response (canceled client_id order_id ticker_id o) ∷ []

abbrev pub rejection : ℕ → ℕ → ℕ → MeClientResponse
rejection client_id order_id ticker_id = record {
  type = ClientResponseType.cancel_rejected;
  client_id = client_id;
  ticker_id = ticker_id;
  client_order_id = order_id;
  market_order_id = order_id_invalid;
  side = Side.invalid;
  price = price_invalid;
  exec_qty = qty_invalid;
  leaves_qty = qty_invalid;
}

find_order-known :
    (client_id order_id : ℕ) (b : MeOrderBook) {f : Option ℕ} {b1 : MeOrderBook}
    → find_order client_id order_id b ≡ some (f, b1)
    → (f ≡ known client_id order_id b) × (b1 ≡ b)
unfolding find_order
find_order-known client_id order_id b e = ground arith

-- A cancel of an order that the book does not know, with an order id in range, is rejected, and
-- changes nothing.
pub cancel-unknown :
    (client_id order_id ticker_id : ℕ) (b : MeOrderBook)
    → order_id < me_max_order_ids
    → known client_id order_id b ≡ none
    → cancel client_id order_id ticker_id b
      ≡ some
          (tt, record b { sent = b.sent ++ response (rejection client_id order_id ticker_id) ∷ [] })
unfolding cancel find_order
cancel-unknown client_id order_id ticker_id b h k = ground arith

-- A cancel of a known order that returns sends the market a CANCEL with the order's data, then the
-- client a CANCELED with the quantity that the order still had, and nothing else.
pub cancel-known :
    (client_id order_id ticker_id : ℕ) (b b' : MeOrderBook) {p : ℕ}
    → known client_id order_id b ≡ some p
    → cancel client_id order_id ticker_id b ≡ some (tt, b')
    → b'.sent ≡ b.sent ++ cancel_messages client_id order_id ticker_id (order_at b p)
unfolding cancel
cancel-known client_id order_id ticker_id b b' {p} k e =
    let (f, b1, q, r) = >>=-inv (find_order client_id order_id) _ b e in
    let (found, same) = find_order-known client_id order_id b q in
    let (_, b2, removed, s) = >>=-inv (remove_order p) _ b (rw (found ∙ k, same) at r) in
    let done : record b2 {
      sent =
          b2.sent
          ++ market (cancel_update ticker_id (order_at b p)) ∷ []
          ++ response (canceled client_id order_id ticker_id (order_at b p)) ∷ [];
    }
        ≡ b' =
      ground arith in
    sym (ap (λ (x : MeOrderBook). x.sent) done)
    ∙ simp (ap (λ (f : List Sent × ℕ). f.0) (remove_order-frame p b removed), list_laws)
