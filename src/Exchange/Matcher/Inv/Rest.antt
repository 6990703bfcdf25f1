-- ===== src/Exchange/Matcher/Inv/Rest.antt =====
-- The end of `add` in exchange/matcher/me_order_book.cpp: the rest of an order goes on the book,
-- and the invariant stays.
use low_latency_electronic_t.Prelude.{
  ℕ, ◌+◌, ◌^◌, ◌<◌, ◌≤◌, ◌≡◌, ◌∙◌, ◌⊎◌, refl, ap, inl, inr, true, false, none, some, ◌==◌,
  if◌then◌else◌, arith, Option-cases, ℤ, count, count-all,
}
use low_latency_electronic_t.Common.Types.{Side}
use low_latency_electronic_t.Common.MemPool.{MemPool}
use low_latency_electronic_t.Common.MemPool
use low_latency_electronic_t.Common.MemPool.Laws
use low_latency_electronic_t.Exchange.Matcher.Book.{
  MeOrder, MeOrderBook, order_at, level_at, price_to_index, get_orders_at_price,
}
use low_latency_electronic_t.Exchange.Matcher.Orders.{add_order, get_next_priority}
use low_latency_electronic_t.Exchange.Matcher.Inv.{unwrap, in_use, IsPrice, Inv}
use low_latency_electronic_t.Exchange.Matcher.Inv.Front.{first-used}
use low_latency_electronic_t.Exchange.Matcher.Inv.Fill.{live_count}
use low_latency_electronic_t.Exchange.Matcher.Inv.Append.{
  IdsOk, appended, Appends, appended-Inv, add_order-appended,
}
use low_latency_electronic_t.Exchange.Matcher.Inv.Link.{NewLevel}
use low_latency_electronic_t.Exchange.Matcher.Inv.NewLevel.{add_orders_at_price-Enters}
use low_latency_electronic_t.Exchange.Matcher.Inv.NewPrice.{
  level_for, alone_in, opened, Opens, opened-Inv, add_order-opened,
}

-- A valid pool with two free blocks hands one out.
pub allocate-returns {ℓ} :
    {T : Type ℓ} (pool : MemPool T) (o : T)
    → MemPool.Laws.IsValid pool
    → count (in_use pool) pool.size + 1 < pool.size
    → (i : ℕ) × (q : MemPool T) × (MemPool.allocate pool o ≡ some (i, q))
      × MemPool.Laws.Allocated pool o i q
allocate-returns pool o v h = elim (Option-cases (MemPool.allocate pool o)) [
  | inl e ↦
      let used = (MemPool.Laws.allocate-eq-none pool o v).0 e in
      absurd (
        omega (
          arith,
          h,
          count-all (in_use pool) pool.next_free_index pool.size
              (λ j i n. ground (arith, used j i n)),
        ))
  | inr ((i, q), e) ↦ (i, q, e, MemPool.Laws.allocate-Allocated pool o v e)
]

-- How many levels are on the book.
abbrev pub level_count : MeOrderBook → ℕ
level_count b = count (in_use b.orders_at_price_pool) b.orders_at_price_pool.size

-- The book has room for an order with the price `price` of the side `side`.
pub record HasRoom (side : Side) (price : ℤ) (b : MeOrderBook) : Type 0 where
  pub order_room : live_count b + 1 < b.order_pool.size
  pub level_room : level_count b + 1 < b.orders_at_price_pool.size
  pub ids : (1 < b.next_market_order_id) × (b.next_market_order_id ≤ 2 ^ 64)
  pub older :
      (q : ℕ) → in_use b.order_pool q ≡ true → (order_at b q).priority + 1 < b.next_market_order_id
  pub same_price :
      (q : ℕ)
      → in_use b.order_pool q ≡ true
      → price_to_index (order_at b q).price ≡ price_to_index price
      → ((order_at b q).price ≡ price) × ((order_at b q).side ≡ side)

-- What an order on the book `b` leaves of it: the orders are those of before and the order `o`.
pub record Added (o : MeOrder) (b b' : MeOrderBook) : Type 0 where
  pub inv : Inv b'
  pub block : ℕ
  pub used : (q : ℕ) → in_use b'.order_pool q ≡ (if q == block then true else in_use b.order_pool q)
  pub was_free : in_use b.order_pool block ≡ false
  pub indexed : b'.cid_oid_to_order o.client_id o.client_order_id ≡ some block
  pub written :
      ((order_at b' block).side ≡ o.side)
      × ((order_at b' block).price ≡ o.price)
      × ((order_at b' block).qty ≡ o.qty)
      × ((order_at b' block).priority ≡ o.priority)
  pub others :
      (q : ℕ)
      → in_use b.order_pool q ≡ true
      → ((order_at b' q).side ≡ (order_at b q).side)
        × ((order_at b' q).price ≡ (order_at b q).price)
        × ((order_at b' q).qty ≡ (order_at b q).qty)
  pub next_id : b'.next_market_order_id ≡ b.next_market_order_id

-- The next priority at a price, and the level that the price has.
abbrev pub NextPriority : ℤ → MeOrderBook → ℕ → Type 0
NextPriority price b k =
    ((b.price_orders_at_price (price_to_index price) ≡ none) × (k ≡ 1))
    ⊎ ((l f z : ℕ) × (b.price_orders_at_price (price_to_index price) ≡ some l)
        × ((level_at b l).first_me_order ≡ some f)
        × ((order_at b f).prev_order ≡ some z)
        × (in_use b.order_pool f ≡ true)
        × (in_use b.order_pool z ≡ true)
        × (k ≡ (order_at b z).priority + 1)
        × ((order_at b f).price ≡ (level_at b l).price)
        × ((order_at b f).side ≡ (level_at b l).side)
        × (price_to_index (order_at b f).price ≡ price_to_index price))

pub get_next_priority-returns :
    (side : Side) (price : ℤ) (b : MeOrderBook)
    → Inv b
    → HasRoom side price b
    → (k : ℕ) × (get_next_priority price b ≡ some (k, b)) × NextPriority price b k
unfolding get_next_priority get_orders_at_price
get_next_priority-returns side price b inv room =
    elim (Option-cases (b.price_orders_at_price (price_to_index price))) [
      | inl e ↦ (1, ground arith, inl (e, refl))
      | inr (l, e) ↦
          let (lu, idx) = inv.price_index _ l e in
          let first = (inv.level l lu).first in
          let f = unwrap (level_at b l).first_me_order in
          let (u, same, side') = first-used b inv l f lu first in
          let z = unwrap (order_at b f).prev_order in
          let last = (inv.order f u).prev in
          let zu = (inv.orders.previous f u).0 in
          (
            (order_at b z).priority + 1,
            ground (arith, first, last, room.older z zu, room.ids),
            inr (l, f, z, e, first, last, u, zu, refl, same, side', ap price_to_index same ∙ idx),
          )
    ]

-- An order that the book can take.
pub record OrderIn (o : MeOrder) : Type 0 where
  pub ids : IdsOk o
  pub side : (o.side ≡ Side.buy) ⊎ (o.side ≡ Side.sell)
  pub price : IsPrice o.price

module _ (o : MeOrder) (b : MeOrderBook) (p : ℕ) (q : MemPool MeOrder) (inv : Inv b)
    (room : HasRoom o.side o.price b) (fine : OrderIn o)
    (alloc : MemPool.Laws.Allocated b.order_pool o p q) where
  abbrev pub Enters : Type 0
  Enters =
      (b' : MeOrderBook) × (add_order p (record b { order_pool = q }) ≡ some (tt, b'))
      × Added o b b'

  add_order-first :
      b.price_orders_at_price (price_to_index o.price) ≡ none → o.priority ≡ 1 → Enters
  add_order-first e one =
      let (m, r, made, level) =
        allocate-returns b.orders_at_price_pool (level_for o p) inv.level_pool room.level_room in
      let w : NewLevel b r (level_for o p) m = record {
        inv = inv;
        side = fine.side;
        price_ok = fine.price;
        allocated = level;
        fresh = e;
      } in
      let t : Opens b q o p r m = record {
        new_level = w;
        allocated = alloc;
        level_allocated = made;
        ids = fine.ids;
        below = omega (arith, one, room.ids.0);
      } in
      let (l, hd, n, entered, joins, linked) =
        add_orders_at_price-Enters b (alone_in q p) r (level_for o p) m w in
      (
        opened b q o p r m l hd,
        add_order-opened b q o p r m t l hd entered,
        record {
          inv = opened-Inv b q o p r m t l hd n joins linked;
          block = p;
          used = λ x. ground (arith, alloc.written, alloc.others x);
          was_free = ground (arith, alloc.was_free);
          indexed = ground arith;
          written = ground (arith, alloc.written);
          others = λ x u. ground (arith, alloc.others x, alloc.was_free);
          next_id = refl;
        },
      )

  add_order-behind :
      (l f z : ℕ)
      → b.price_orders_at_price (price_to_index o.price) ≡ some l
      → (level_at b l).first_me_order ≡ some f
      → (order_at b f).prev_order ≡ some z
      → in_use b.order_pool z ≡ true
      → o.priority ≡ (order_at b z).priority + 1
      → ((level_at b l).price ≡ o.price) × ((level_at b l).side ≡ o.side)
      → Enters
  add_order-behind l f z e first last zu k same =
      let t : Appends b q o p l f z = record {
        inv = inv;
        allocated = alloc;
        ids = fine.ids;
        found = e;
        first = first;
        last = last;
        same_price = same;
        priority = k;
        below = omega (arith, k, room.older z zu);
      } in
      (
        appended b q o p l f z,
        add_order-appended b q o p l f z t,
        record {
          inv = appended-Inv b q o p l f z t;
          block = p;
          used = λ x. ground (arith, alloc.written, alloc.others x);
          was_free = ground (arith, alloc.was_free);
          indexed = ground arith;
          written = ground (arith, alloc.written);
          others = λ x u. ground (arith, alloc.others x, alloc.was_free);
          next_id = refl;
        },
      )

  pub add_order-Added : NextPriority o.price b o.priority → Enters
  add_order-Added (inl (e, one)) = add_order-first e one
  add_order-Added (inr (l, f, z, e, first, last, u, zu, k, price, side, idx)) =
      let (x, y) = room.same_price f u idx in
      add_order-behind l f z e first last zu k (ground (arith, price, x), ground (arith, side, y))
