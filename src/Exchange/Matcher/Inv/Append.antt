-- ===== src/Exchange/Matcher/Inv/Append.antt =====
-- `addOrder` of exchange/matcher/me_order_book.h for a price that has a level: the order goes
-- behind the last one there, and the invariant stays.
use low_latency_electronic_t.Prelude.{
  ℕ, ◌+◌, ◌<◌, ◌≡◌, ◌∙◌, refl, inl, inr, true, false, Option, some, ◌==◌, update, arith, Bool-cases,
}
use low_latency_electronic_t.Common.Types.{me_max_num_clients, me_max_order_ids}
use low_latency_electronic_t.Common.MemPool.{MemPool}
use low_latency_electronic_t.Common.MemPool
use low_latency_electronic_t.Common.MemPool.Laws
use low_latency_electronic_t.Common.Rings.{Agree, Agree-IsOk, insert}
use low_latency_electronic_t.Common.Rings.Insert.{insert-IsOk}
use low_latency_electronic_t.Exchange.Matcher.Book.{
  poke, MeOrder, MeOrderBook, order_at, level_at, price_to_index, get_orders_at_price,
}
use low_latency_electronic_t.Exchange.Matcher.Orders.{append_order, add_order, set_index}
use low_latency_electronic_t.Exchange.Matcher.Inv.Forget.{>>=-step}
use low_latency_electronic_t.Exchange.Matcher.Inv.{unwrap, in_use, orders_of, OrderOk, Inv}

-- What `addOrder` asks of an order: its ids are in range.
pub record IdsOk (o : MeOrder) : Type 0 where
  pub client : o.client_id < me_max_num_clients
  pub client_order : o.client_order_id < me_max_order_ids

-- The book with the order `o` allocated in the block `p` of the pool `q`.
abbrev pub indexed : MeOrder → ℕ → MeOrderBook → ℕ → ℕ → Option ℕ
indexed o p b =
    update b.cid_oid_to_order o.client_id
      (update (b.cid_oid_to_order o.client_id) o.client_order_id (some p))

pub set_index_lem :
    (o : MeOrder) (p : ℕ) (b : MeOrderBook)
    → IdsOk o
    → set_index o.client_id o.client_order_id (some p) b
      ≡ some (tt, record b { cid_oid_to_order = indexed o p b })
set_index_lem o p b h = ground (arith, h.client, h.client_order)

-- The order `o` in the block `p` goes behind the last order `z` of the level `l`, whose first one
-- is `f`.
module _ (b : MeOrderBook) (q : MemPool MeOrder) (o : MeOrder) (p l f z : ℕ) where
  abbrev orders1 : MemPool MeOrder
  orders1 = poke q z (record (q.store z).object { next_order = some p })

  abbrev orders2 : MemPool MeOrder
  orders2 = poke orders1 p (record (orders1.store p).object { prev_order = some z })

  abbrev orders3 : MemPool MeOrder
  orders3 = poke orders2 p (record (orders2.store p).object { next_order = some f })

  abbrev orders4 : MemPool MeOrder
  orders4 = poke orders3 f (record (orders3.store f).object { prev_order = some p })

  abbrev pub appended : MeOrderBook
  appended = record b { order_pool = orders4; cid_oid_to_order = indexed o p b }

  pub record Appends : Type 0 where
    pub inv : Inv b
    pub allocated : MemPool.Laws.Allocated b.order_pool o p q
    pub ids : IdsOk o
    pub found : b.price_orders_at_price (price_to_index o.price) ≡ some l
    pub first : (level_at b l).first_me_order ≡ some f
    pub last : (order_at b f).prev_order ≡ some z
    pub same_price : ((level_at b l).price ≡ o.price) × ((level_at b l).side ≡ o.side)
    pub priority : o.priority ≡ (order_at b z).priority + 1
    pub below : o.priority < b.next_market_order_id

  module _ (t : Appends) where
    open t use {inv, allocated, ids, found, first, last, same_price, priority, below}

    -- `f` and `z` are on the book, at this price; `p` was free.
    ends :
        (in_use b.order_pool f ≡ true)
        × (in_use b.order_pool z ≡ true)
        × (in_use b.order_pool p ≡ false)
        × (price_to_index (order_at b f).price ≡ price_to_index o.price)
        × (price_to_index (order_at b z).price ≡ price_to_index o.price)
        × (unwrap (order_at b z).next_order ≡ f)
    ends =
        let (u, g) = inv.orders.head_is (price_to_index o.price) f (ground (arith, found, first)) in
        let (v, n, h) = inv.orders.previous f u in
        (
          u,
          ground (arith, v, last),
          ground (arith, allocated.was_free),
          g,
          ground (arith, g, h, last),
          ground (arith, n, last),
        )

    pub add_order-appended : add_order p (record b { order_pool = q }) ≡ some (tt, appended)
    unfolding add_order get_orders_at_price append_order
    add_order-appended =
        let (u, v, w, _, _, _) = ends in
        let held : (q.store p).object ≡ o = ground (arith, allocated.written) in
        let back : (q.store f).object.prev_order ≡ some z =
          ground (arith, last, allocated.others f) in
        let done = set_index_lem o p (record b { order_pool = orders4 }) ids in
        simp (held, found)
          (>>=-step (append_order l p) _ (record b { order_pool = q })
              {b1 = record b { order_pool = orders4 }} (ground (arith, back))
            ∙ done)

    orders-Agree : Agree (insert false p z o.priority (orders_of b)) (orders_of appended)
    unfolding insert
    orders-Agree =
        let (u, v, w, x, y, n) = ends in
        record {
          live = λ k. ground (arith, allocated.written, allocated.others k);
          nx = λ k h. ground (arith, allocated.written, allocated.others k, n);
          pv = λ k h. ground (arith, allocated.written, allocated.others k, n);
          group = λ k h. ground (arith, allocated.written, allocated.others k, y);
          rank = λ k h. ground (arith, allocated.written, allocated.others k);
          head = λ i. refl;
        }

    appended-OrderOk : (k : ℕ) → in_use appended.order_pool k ≡ true → OrderOk appended k
    appended-OrderOk k h = elim (Bool-cases (k == p)) [
      | inl e ↦
          let same : k ≡ p = ground arith in
          let (u, v, w, _, _, _) = ends in
          record {
            in_pool = ground (arith, allocated.in_range, allocated.same_size);
            next = ground (arith);
            prev = ground (arith);
            client = ground (arith, ids.client, allocated.written);
            client_order = ground (arith, ids.client_order, allocated.written);
            priority = ground (arith, below, allocated.written);
            same_price = λ m e. ground (arith, found, same_price, allocated.written);
          }
      | inr e ↦
          let u : in_use b.order_pool k ≡ true =
            ground (arith, allocated.others k, allocated.written) in
          let x = inv.order k u in
          record {
            in_pool = ground (arith, x.in_pool, allocated.same_size);
            next = ground (arith, x.next, allocated.others k);
            prev = ground (arith, x.prev, allocated.others k);
            client = ground (arith, x.client, allocated.others k);
            client_order = ground (arith, x.client_order, allocated.others k);
            priority = ground (arith, x.priority, allocated.others k);
            same_price = λ m e. ground (arith, x.same_price m, allocated.others k);
          }
    ]

    -- The order joins the book behind the others at its price, and the invariant stays.
    pub appended-Inv : Inv appended
    appended-Inv =
        let (u, v, w, x, y, n) = ends in
        record {
          order_pool = record {
            in_range = allocated.valid.in_range;
            free = ground (
              arith,
              allocated.valid.free,
              allocated.written,
              allocated.others f,
              allocated.others z,
            );
          };
          level_pool = inv.level_pool;
          orders =
              Agree-IsOk (insert false p z o.priority (orders_of b)) (orders_of appended)
                (insert-IsOk false (orders_of b) p z o.priority inv.orders w v
                  (ground (arith, priority), inl (ground (arith, found, first, y, n))))
                orders-Agree;
          levels = inv.levels;
          order = appended-OrderOk;
          level = λ m h.
              let r = inv.level m h in
              record {
                in_pool = r.in_pool;
                next = r.next;
                prev = r.prev;
                first = r.first;
                indexed = r.indexed;
                side = r.side;
                price = r.price;
              };
          price_index = inv.price_index;
          id_index =
              λ c i k e. ground (arith, inv.id_index c i k, allocated.written, allocated.others k);
        }
