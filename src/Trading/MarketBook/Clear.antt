-- ===== src/Trading/MarketBook/Clear.antt =====
-- What CLEAR leaves of the client's book (trading/strategy/market_order_book.cpp).
use low_latency_electronic_t.Prelude.{
  ℕ, zero, suc, ◌+◌, ◌≤◌, ◌≡◌, refl, ◌∙◌, Option, none, some, arith, Option-cases, inl, inr,
}
use low_latency_electronic_t.Common.MemPool
use low_latency_electronic_t.Common.MemPool.Laws
use low_latency_electronic_t.Exchange.Messages.{MeMarketUpdate}
use low_latency_electronic_t.Trading.MarketBook.Book.{
  M, ◌>>=◌, allocate_order, MarketOrder, MarketOrderBook, get_orders_at_price, order_at,
}
use low_latency_electronic_t.Trading.MarketBook.Orders.{add_order, append_order, set_index}
use low_latency_electronic_t.Trading.MarketBook.Update.{on_add, on_clear, free_orders}

on_clear-price_index :
    (b : MarketOrderBook) {b' : MarketOrderBook}
    → on_clear b ≡ some (tt, b')
    → (b'.bids_by_price ≡ none)
      × (b'.asks_by_price ≡ none)
      × (b'.price_orders_at_price ≡ b.price_orders_at_price)
unfolding on_clear
on_clear-price_index b e = ground arith

append_order-heads :
    (l p : ℕ) (b : MarketOrderBook) {b' : MarketOrderBook}
    → append_order l p b ≡ some (tt, b')
    → (b'.bids_by_price ≡ b.bids_by_price) × (b'.asks_by_price ≡ b.asks_by_price)
unfolding append_order
append_order-heads l p b e = ground arith

set_index-heads :
    (o : ℕ) (e : Option ℕ) (b : MarketOrderBook) {b' : MarketOrderBook}
    → set_index o e b ≡ some (tt, b')
    → (b'.bids_by_price ≡ b.bids_by_price) × (b'.asks_by_price ≡ b.asks_by_price)
set_index-heads o e b h = ground arith

-- The second of two steps that succeed together.
>>=-inv :
    {A : Type 0} (m : M A) (k : A → M (Unit {0})) (b : MarketOrderBook) {b' : MarketOrderBook}
    → (m >>= k) b ≡ some (tt, b')
    → (a : A) × (b1 : MarketOrderBook) × (m b ≡ some (a, b1)) × (k a b1 ≡ some (tt, b'))
>>=-inv m k b h = elim (Option-cases (m b)) [
  | inl n ↦ absurd (ground arith)
  | inr ((a, b1), q) ↦ (a, b1, q, ground arith)
]

-- An order at a price whose index entry is set joins that level, and makes no other.
add_order-indexed :
    (p l : ℕ) (b : MarketOrderBook) {b' : MarketOrderBook}
    → get_orders_at_price (order_at b p).price b ≡ some l
    → add_order p b ≡ some (tt, b')
    → (b'.bids_by_price ≡ b.bids_by_price) × (b'.asks_by_price ≡ b.asks_by_price)
unfolding add_order
add_order-indexed p l b h e =
    let (_, b1, q, r) =
      >>=-inv (append_order l p) (λ _. set_index (order_at b p).order_id (some p)) b (rw h at e) in
    let x = append_order-heads l p b q in
    let y = set_index-heads (order_at b p).order_id (some p) b1 r in (y.0 ∙ x.0, y.1 ∙ x.1)

-- The order that an ADD puts on the book.
abbrev added_order : MeMarketUpdate → MarketOrder
added_order u = record {
  order_id = u.order_id;
  side = u.side;
  price = u.price;
  qty = u.qty;
  priority = u.priority;
  prev_order = none;
  next_order = none;
}

allocate_order_lem :
    (o : MarketOrder) (b : MarketOrderBook) {p : ℕ} {b1 : MarketOrderBook}
    → allocate_order o b ≡ some (p, b1)
    → (order_at b1 p ≡ o)
      × (b1.bids_by_price ≡ b.bids_by_price)
      × (b1.asks_by_price ≡ b.asks_by_price)
      × (b1.price_orders_at_price ≡ b.price_orders_at_price)
unfolding allocate_order
allocate_order_lem o b {p} {b1} e = elim (Option-cases (MemPool.allocate b.order_pool o)) [
  | inl n ↦ absurd (ground arith)
  | inr ((p', pool), q) ↦ ground (arith, MemPool.Laws.allocate-object b.order_pool o q)
]

on_add-indexed :
    (u : MeMarketUpdate) (l : ℕ) (b : MarketOrderBook) {b' : MarketOrderBook}
    → get_orders_at_price u.price b ≡ some l
    → on_add u b ≡ some (tt, b')
    → (b'.bids_by_price ≡ b.bids_by_price) × (b'.asks_by_price ≡ b.asks_by_price)
unfolding on_add get_orders_at_price
on_add-indexed u l b h e =
    let (p, b1, q, r) = >>=-inv (allocate_order (added_order u)) add_order b e in
    let (o, bids, asks, index) = allocate_order_lem (added_order u) b q in
    let g = add_order-indexed p l b1 (ground arith) r in (g.0 ∙ bids, g.1 ∙ asks)

-- CLEAR empties both sides, but the price index keeps its pointers to the levels that it gave
-- back. An ADD at a price that had a level is linked to that level, so that after it both sides
-- are still empty.
pub on_add-on_clear :
    (u : MeMarketUpdate) (l : ℕ) (b : MarketOrderBook) {b' b'' : MarketOrderBook}
    → get_orders_at_price u.price b ≡ some l
    → on_clear b ≡ some (tt, b')
    → on_add u b' ≡ some (tt, b'')
    → (b''.bids_by_price ≡ none) × (b''.asks_by_price ≡ none)
unfolding get_orders_at_price
on_add-on_clear u l b {b'} {b''} h c a =
    let k = on_clear-price_index b c in
    let g = on_add-indexed u l b' (ground arith) a in (g.0 ∙ k.0, g.1 ∙ k.1)

-- The loop over the index does nothing past the last order.
pub free_orders-past :
    (index : ℕ → Option ℕ) (rounds oid : ℕ) (pool : MemPool.MemPool MarketOrder)
    → ((o : ℕ) → oid ≤ o → index o ≡ none)
    → free_orders index rounds oid pool ≡ some pool
unfolding free_orders
free_orders-past index zero oid pool h = refl
free_orders-past index (suc rounds) oid pool h =
    ground (arith, h oid, free_orders-past index rounds (oid + 1) pool (λ o l. h o (omega arith)))
