-- ===== src/Exchange/Matcher/Inv/Add.antt =====
-- `add` of exchange/matcher/me_order_book.cpp: it returns, and keeps the invariant.
use low_latency_electronic_t.Prelude.{
  ℕ, ◌+◌, ◌^◌, ◌<◌, ◌≤◌, ◌≡◌, ◌∙◌, ◌⊎◌, ap, sym, true, none, some, arith, ℤ, count, count_mono,
  List, ◌++◌, ◌∷◌, [],
}
use low_latency_electronic_t.Common.Types.{Side}
use low_latency_electronic_t.Exchange.Matcher.Book.{
  market, MeOrder, MeOrderBook, order_at, price_to_index, allocate_order, Sent,
}
use low_latency_electronic_t.Exchange.Matcher.Match.{rest_order, opposite, no_cross}
use low_latency_electronic_t.Exchange.Matcher.NewOrder.{added}
use low_latency_electronic_t.Exchange.Matcher.Inv.{in_use, Inv}
use low_latency_electronic_t.Exchange.Matcher.Inv.Removal.{level-known}
use low_latency_electronic_t.Exchange.Matcher.Inv.Touch.{renewed, renewed-Inv}
use low_latency_electronic_t.Exchange.Matcher.Inv.Fill.{BookOk, Later, live_count}
use low_latency_electronic_t.Exchange.Matcher.Inv.Matching.{Uncrossed}
use low_latency_electronic_t.Exchange.Matcher.Inv.Rest.{
  allocate-returns, level_count, HasRoom, Added, OrderIn, get_next_priority-returns,
  add_order-Added,
}

pub order-side :
    (b : MeOrderBook)
    → Inv b
    → (q : ℕ) → in_use b.order_pool q ≡ true
    → ((order_at b q).side ≡ Side.buy) ⊎ ((order_at b q).side ≡ Side.sell)
order-side b inv q u =
    let (l, e) = level-known b q inv u in
    let (lu, _) = inv.price_index _ l e in
    ground (arith, (inv.level l lu).side, ((inv.order q u).same_price l e).1)

-- Two orders at one price that do not cross are on one side.
crosses-same :
    (s t : Side) (a x : ℤ)
    → (s ≡ Side.buy) ⊎ (s ≡ Side.sell)
    → (t ≡ Side.buy) ⊎ (t ≡ Side.sell)
    → (t ≡ opposite s → no_cross s a x ≡ true)
    → x ≡ a
    → t ≡ s
unfolding no_cross
crosses-same Side.buy t a x h k n e = ground (arith, n)
crosses-same Side.sell t a x h k n e = ground (arith, n)
crosses-same Side.invalid t a x h k n e = absurd (ground arith)
crosses-same Side.max t a x h k n e = absurd (ground arith)

module _ (client_id client_order_id ticker_id : ℕ) (side : Side) (price : ℤ) where
  -- The order that rests.
  abbrev pub resting : ℕ → ℕ → ℕ → MeOrder
  resting left market_order_id priority = record {
    ticker_id = ticker_id;
    client_id = client_id;
    client_order_id = client_order_id;
    market_order_id = market_order_id;
    side = side;
    price = price;
    qty = left;
    priority = priority;
    prev_order = none;
    next_order = none;
  }

  pub rest_order-returns :
      (left market_order_id : ℕ) (b : MeOrderBook)
      → Inv b
      → HasRoom side price b
      → OrderIn (resting left market_order_id 0)
      → (k : ℕ) × (b' : MeOrderBook) × (rest_order client_id client_order_id ticker_id side price
            left market_order_id b
          ≡ some (tt, b'))
        × Added (resting left market_order_id k) b b'
  unfolding rest_order allocate_order
  rest_order-returns left moid b inv room fine =
      let (k, e, next) = get_next_priority-returns side price b inv room in
      let o = resting left moid k in
      let (p, q, made, alloc) = allocate-returns b.order_pool o inv.order_pool room.order_room in
      let fine' : OrderIn o = record {
        ids = record { client = fine.ids.client; client_order = fine.ids.client_order };
        side = fine.side;
        price = fine.price;
      } in
      let (b1, done, new) = add_order-Added o b p q inv room fine' alloc next in
      let m =
        b1.sent ++ market (added client_id client_order_id ticker_id side price moid left k) ∷ [] in
      (
        k,
        renewed b1.next_market_order_id m b1,
        ground (arith, e, made, done),
        record {
          inv = renewed-Inv b1.next_market_order_id m b1 (omega arith) new.inv;
          block = new.block;
          used = new.used;
          was_free = new.was_free;
          indexed = new.indexed;
          written = new.written;
          others = new.others;
          next_id = new.next_id;
        },
      )

  -- What `add` asks of a book.
  pub record CanTake (b : MeOrderBook) : Type 0 where
    pub ok : BookOk b
    pub order_room : live_count b + 1 < b.order_pool.size
    pub level_room : level_count b + 1 < b.orders_at_price_pool.size
    pub ids : (0 < b.next_market_order_id) × (b.next_market_order_id < 2 ^ 64)
    pub same_price :
        (q : ℕ)
        → in_use b.order_pool q ≡ true
        → price_to_index (order_at b q).price ≡ price_to_index price
        → (order_at b q).price ≡ price

  -- The book once the order has its market order id.
  abbrev pub numbered : List Sent → MeOrderBook → MeOrderBook
  numbered m b = renewed (b.next_market_order_id + 1) m b

  fewer_orders :
      (m : List Sent) (b b' : MeOrderBook)
      → Later (numbered m b) b'
      → (live_count b' ≤ live_count b) × (level_count b' ≤ level_count b)
  fewer_orders m b b' later = (
    omega (
      arith,
      ap (λ n. count (in_use b'.order_pool) n) later.size,
      count_mono (in_use b.order_pool) (in_use b'.order_pool) b.order_pool.size later.still,
    ),
    omega (
      arith,
      ap (λ n. count (in_use b'.orders_at_price_pool) n) later.level_size,
      count_mono (in_use b.orders_at_price_pool) (in_use b'.orders_at_price_pool)
          b.orders_at_price_pool.size later.still_level,
    ),
  )

  -- An order at the price is on the same side: one on the other side would cross.
  same_side :
      (b : MeOrderBook) (q : ℕ)
      → (side ≡ Side.buy) ⊎ (side ≡ Side.sell)
      → Inv b
      → Uncrossed side price b
      → in_use b.order_pool q ≡ true
      → (order_at b q).price ≡ price
      → (order_at b q).side ≡ side
  same_side b q h inv x u e =
      crosses-same side (order_at b q).side price (order_at b q).price h (order-side b inv q u)
        (x q u) e

  pub Later-HasRoom :
      (m : List Sent) (b b' : MeOrderBook)
      → (side ≡ Side.buy) ⊎ (side ≡ Side.sell)
      → CanTake b
      → BookOk b'
      → Later (numbered m b) b'
      → Uncrossed side price b'
      → HasRoom side price b'
  Later-HasRoom m b b' h t ok later x = record {
    order_room = omega (arith, t.order_room, (fewer_orders m b b' later).0, later.size);
    level_room = omega (arith, t.level_room, (fewer_orders m b b' later).1, later.level_size);
    ids = (omega (arith, t.ids.0, later.next_id), omega (arith, t.ids.1, later.next_id));
    older = λ q u. omega (
      arith,
      later.next_id,
      (later.same_order q u).2,
      (t.ok.inv.order q (later.still q u)).priority,
    );
    same_price = λ q u i.
        let e : (order_at b' q).price ≡ price =
          (later.same_order q u).1
          ∙ t.same_price q (later.still q u)
              (sym (ap price_to_index (later.same_order q u).1) ∙ i) in
        (e, same_side b' q h ok.inv x u e);
  }
