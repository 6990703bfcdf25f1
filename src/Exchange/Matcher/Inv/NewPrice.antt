-- ===== src/Exchange/Matcher/Inv/NewPrice.antt =====
-- `addOrder` of exchange/matcher/me_order_book.h for a price that has no level: the order gets one,
-- and the invariant stays.
use low_latency_electronic_t.Prelude.{
  ℕ, ◌<◌, ◌≡◌, inl, inr, true, Option, none, some, ◌==◌, arith, Bool-cases, Option-cases,
}
use low_latency_electronic_t.Common.MemPool.{MemPool}
use low_latency_electronic_t.Common.MemPool
use low_latency_electronic_t.Common.MemPool.Laws
use low_latency_electronic_t.Common.Rings.{Rings, Agree, Agree-IsOk, found}
use low_latency_electronic_t.Common.Rings.Insert.{found-IsOk}
use low_latency_electronic_t.Exchange.Matcher.Book.{
  poke, MeOrder, MeOrdersAtPrice, MeOrderBook, order_at, price_to_index, get_orders_at_price,
  allocate_level,
}
use low_latency_electronic_t.Exchange.Matcher.Levels.{add_orders_at_price}
use low_latency_electronic_t.Exchange.Matcher.Orders.{add_order}
use low_latency_electronic_t.Exchange.Matcher.Inv.Removal.{level-known}
use low_latency_electronic_t.Exchange.Matcher.Inv.Append.{IdsOk, indexed, set_index_lem}
use low_latency_electronic_t.Exchange.Matcher.Inv.Link.{Joins, Linked, NewLevel}
use low_latency_electronic_t.Exchange.Matcher.Inv.Enter.{entered}
use low_latency_electronic_t.Exchange.Matcher.Inv.NewLevel.{given}
use low_latency_electronic_t.Exchange.Matcher.Inv.{
  in_use, orders_of, levels_of, OrderOk, LevelOk, Inv,
}

-- The level of an order that is the first one at its price.
abbrev pub level_for : MeOrder → ℕ → MeOrdersAtPrice
level_for o p = record {
  side = o.side;
  price = o.price;
  first_me_order = some p;
  prev_entry = none;
  next_entry = none;
}

-- The order `o` in the block `p`, alone in its list.
abbrev pub alone_in : MemPool MeOrder → ℕ → MemPool MeOrder
alone_in q p = poke q p (record (q.store p).object { prev_order = some p; next_order = some p })

-- The order `o` is in the block `p` of the pool `q`, and its level in the block `m` of `r`.
module _ (b : MeOrderBook) (q : MemPool MeOrder) (o : MeOrder) (p : ℕ) (r : MemPool MeOrdersAtPrice)
    (m : ℕ) where
  pub record Opens : Type 0 where
    pub new_level : NewLevel b r (level_for o p) m
    pub allocated : MemPool.Laws.Allocated b.order_pool o p q
    pub level_allocated : MemPool.allocate b.orders_at_price_pool (level_for o p) ≡ some (m, r)
    pub ids : IdsOk o
    pub below : o.priority < b.next_market_order_id

  -- The book with the levels `l` and the head `hd` of the order's side.
  abbrev pub opened : MemPool MeOrdersAtPrice → Option ℕ → MeOrderBook
  opened l hd = record (entered b (alone_in q p) r (level_for o p) m l hd) {
    cid_oid_to_order = indexed o p b;
  }

  module _ (t : Opens) where
    open t use {new_level, allocated, level_allocated, ids, below}

    pub add_order-opened :
        (l : MemPool MeOrdersAtPrice) (hd : Option ℕ)
        → add_orders_at_price m (given b (alone_in q p) r (level_for o p) m new_level)
          ≡ some (tt, entered b (alone_in q p) r (level_for o p) m l hd)
        → add_order p (record b { order_pool = q }) ≡ some (tt, opened l hd)
    unfolding add_order get_orders_at_price allocate_level
    add_order-opened l hd e =
        let held : (q.store p).object ≡ o = ground (arith, allocated.written) in
        let done = set_index_lem o p (entered b (alone_in q p) r (level_for o p) m l hd) ids in
        ground (arith, held, new_level.fresh, level_allocated, e, done)

    module _ (l : MemPool MeOrdersAtPrice) (hd : Option ℕ) (n : Rings)
        (j : Joins b r (level_for o p) m hd n) (k : Linked b r (level_for o p) m n l) where
      orders-Agree :
          Agree
            (found p (price_to_index o.price) o.priority (orders_of b))
            (orders_of (opened l hd))
      unfolding found
      orders-Agree = record {
        live = λ x. ground (arith, allocated.written, allocated.others x);
        nx = λ x h. ground (arith, allocated.written, allocated.others x);
        pv = λ x h. ground (arith, allocated.written, allocated.others x);
        group = λ x h. ground (arith, allocated.written, allocated.others x);
        rank = λ x h. ground (arith, allocated.written, allocated.others x);
        head = λ i. elim (Option-cases (b.price_orders_at_price i)) [
          | inl e ↦ ground (arith, k.first m, new_level.allocated.written)
          | inr (y, e) ↦ ground (
            arith,
            k.first m,
            k.first y,
            new_level.allocated.written,
            new_level.allocated.others y,
            new_level.allocated.was_free,
            new_level.inv.price_index i y e,
          )
        ];
      }

      levels-Agree : Agree n (levels_of (opened l hd))
      levels-Agree = record {
        live = λ x.
            ground (
              arith,
              j.live x,
              k.free x,
              new_level.allocated.written,
              new_level.allocated.others x,
            );
        nx = λ x h. ground (arith, k.next x h);
        pv = λ x h. ground (arith, k.prev x h);
        group = λ x h.
            ground (
              arith,
              j.group x,
              k.side x,
              new_level.allocated.written,
              new_level.allocated.others x,
            );
        rank = λ x h. ground (
          arith,
          j.rank x,
          k.side x,
          k.price x,
          new_level.allocated.written,
          new_level.allocated.others x,
        );
        head = λ g. ground (arith, j.head g, new_level.side);
      }

      opened-OrderOk : (x : ℕ) → in_use (opened l hd).order_pool x ≡ true → OrderOk (opened l hd) x
      opened-OrderOk x h = elim (Bool-cases (x == p)) [
        | inl e ↦ record {
          in_pool = ground (arith, allocated.in_range, allocated.same_size);
          next = ground arith;
          prev = ground arith;
          client = ground (arith, ids.client, allocated.written);
          client_order = ground (arith, ids.client_order, allocated.written);
          priority = ground (arith, below, allocated.written);
          same_price = λ y c.
              ground (arith, k.side m, k.price m, new_level.allocated.written, allocated.written);
        }
        | inr e ↦
            let u : in_use b.order_pool x ≡ true = ground (arith, allocated.others x) in
            let y = new_level.inv.order x u in
            let some_level = level-known b x new_level.inv u in
            record {
              in_pool = ground (arith, y.in_pool, allocated.same_size);
              next = ground (arith, y.next, allocated.others x);
              prev = ground (arith, y.prev, allocated.others x);
              client = ground (arith, y.client, allocated.others x);
              client_order = ground (arith, y.client_order, allocated.others x);
              priority = ground (arith, y.priority, allocated.others x);
              same_price = λ z c.
                  let old : b.price_orders_at_price (price_to_index (order_at b x).price) ≡ some z =
                    ground (arith, some_level, new_level.fresh, allocated.others x, c) in
                  let zu = (new_level.inv.price_index _ z old).0 in
                  ground (
                    arith,
                    y.same_price z old,
                    allocated.others x,
                    k.side z,
                    k.price z,
                    new_level.allocated.others z,
                    new_level.allocated.was_free,
                    zu,
                  );
            }
      ]

      opened-LevelOk :
          (x : ℕ) → in_use (opened l hd).orders_at_price_pool x ≡ true → LevelOk (opened l hd) x
      opened-LevelOk x h = elim (Bool-cases (x == m)) [
        | inl e ↦ record {
          in_pool =
              ground (arith, new_level.allocated.in_range, new_level.allocated.same_size, k.size);
          next = ground (arith, k.next x h);
          prev = ground (arith, k.prev x h);
          first = ground (arith, k.first m, new_level.allocated.written);
          indexed = ground (arith, k.price m, new_level.allocated.written);
          side = ground (arith, k.side m, new_level.allocated.written, new_level.side);
          price = ground (arith, k.price m, new_level.allocated.written, new_level.price_ok);
        }
        | inr e ↦
            let u : in_use b.orders_at_price_pool x ≡ true =
              ground (arith, k.free x, new_level.allocated.others x) in
            let y = new_level.inv.level x u in
            record {
              in_pool = ground (arith, y.in_pool, new_level.allocated.same_size, k.size);
              next = ground (arith, k.next x h);
              prev = ground (arith, k.prev x h);
              first = ground (arith, y.first, k.first x, new_level.allocated.others x);
              indexed =
                  ground
                    (arith, y.indexed, k.price x, new_level.allocated.others x, new_level.fresh);
              side = ground (arith, y.side, k.side x, new_level.allocated.others x);
              price = ground (arith, y.price, k.price x, new_level.allocated.others x);
            }
      ]

      -- The order joins the book with a level of its own, and the invariant stays.
      pub opened-Inv : Inv (opened l hd)
      opened-Inv = record {
        order_pool = record {
          in_range = allocated.valid.in_range;
          free = ground (arith, allocated.valid.free, allocated.written);
        };
        level_pool = record {
          in_range = ground (arith, new_level.allocated.valid.in_range, k.size, k.next_free_index);
          free =
              ground (
                arith,
                new_level.allocated.valid.free,
                k.free r.next_free_index,
                k.next_free_index,
              );
        };
        orders =
            Agree-IsOk (found p (price_to_index o.price) o.priority (orders_of b))
              (orders_of (opened l hd))
              (found-IsOk (orders_of b) p (price_to_index o.price) o.priority new_level.inv.orders
                (ground (arith, allocated.was_free)) (ground (arith, new_level.fresh)))
              orders-Agree;
        levels = Agree-IsOk n (levels_of (opened l hd)) j.ok levels-Agree;
        order = opened-OrderOk;
        level = opened-LevelOk;
        price_index = λ i x c. ground (
          arith,
          k.free m,
          k.price m,
          k.free x,
          k.price x,
          new_level.allocated.written,
          new_level.allocated.others x,
          new_level.allocated.was_free,
          new_level.inv.price_index i x,
        );
        id_index = λ c i x e.
            ground (arith, new_level.inv.id_index c i x, allocated.written, allocated.others x);
      }
