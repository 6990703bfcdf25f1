-- ===== src/Exchange/Matcher/Inv/Unlink.antt =====
-- `removeOrder` of exchange/matcher/me_order_book.h for an order that is not the last one at its
-- price: the book after it, and the invariant.
use low_latency_electronic_t.Prelude.{
  ℕ, ◌≡◌, ◌≢◌, ◌∙◌, refl, inl, inr, true, false, none, some, ptr_eq, if◌then◌else◌, arith,
  Bool-cases, Option-cases,
}
use low_latency_electronic_t.Common.MemPool.{MemPool}
use low_latency_electronic_t.Common.Rings.{Agree, Agree-IsOk, remove}
use low_latency_electronic_t.Common.Rings.Remove.{remove-IsOk}
use low_latency_electronic_t.Exchange.Matcher.Book.{
  poke, MeOrder, MeOrdersAtPrice, MeOrderBook, order_at, level_at, price_to_index,
  get_orders_at_price,
}
use low_latency_electronic_t.Exchange.Matcher.Orders.{unlink_order, remove_order}
use low_latency_electronic_t.Exchange.Matcher.Inv.Forget.{
  >>=-step, release, release-IsValid, unindexed, forget_lem,
}
use low_latency_electronic_t.Exchange.Matcher.Inv.{
  in_use, orders_of, levels_of, OrderOk, LevelOk, Inv,
}

-- The order `p` stands between the orders `a` and `c` of the level `l`.
module _ (b : MeOrderBook) (p l a c : ℕ) where
  -- The orders once `p` is out of the circle.
  abbrev orders1 : MemPool MeOrder
  orders1 = poke b.order_pool a (record (order_at b a) { next_order = some c })

  abbrev orders2 : MemPool MeOrder
  orders2 = poke orders1 c (record (orders1.store c).object { prev_order = some a })

  abbrev orders3 : MemPool MeOrder
  orders3 =
      poke orders2 p (record (orders2.store p).object { prev_order = none; next_order = none })

  -- The levels, the first order of `l` moved on if it is `p`.
  abbrev levels1 : MemPool MeOrdersAtPrice
  levels1 =
      if ptr_eq (level_at b l).first_me_order (some p)
      then poke b.orders_at_price_pool l (record (level_at b l) { first_me_order = some c })
      else b.orders_at_price_pool

  abbrev out_of_circle : MeOrderBook
  out_of_circle = record b { order_pool = orders3; orders_at_price_pool = levels1 }

  unlink_order_lem :
      (order_at b p).prev_order ≡ some a
      → (order_at b p).next_order ≡ some c
      → unlink_order (some l) p b ≡ some (tt, out_of_circle)
  unfolding unlink_order
  unlink_order_lem pv nx = elim (Bool-cases (ptr_eq (level_at b l).first_me_order (some p))) [
    | inl h ↦ ground arith
    | inr h ↦ simp (pv, nx, h)
  ]

  orders3-in_use : (q : ℕ) → in_use orders3 q ≡ in_use b.order_pool q
  orders3-in_use q = ground arith

  -- The book once `p` has left it.
  abbrev pub unlinked : MeOrderBook
  unlinked = record b {
    order_pool = release orders3 p;
    orders_at_price_pool = levels1;
    cid_oid_to_order = unindexed (order_at b p).client_id (order_at b p).client_order_id b;
  }

  pub remove_order-unlinked :
      OrderOk b p
      → in_use b.order_pool p ≡ true
      → b.price_orders_at_price (price_to_index (order_at b p).price) ≡ some l
      → (order_at b p).prev_order ≡ some a
      → (order_at b p).next_order ≡ some c
      → a ≢ p
      → remove_order p b ≡ some (tt, unlinked)
  unfolding remove_order get_orders_at_price
  remove_order-unlinked o u i pv nx n =
      let apart : ptr_eq (order_at b p).prev_order (some p) ≡ false = ground arith in
      let circle = unlink_order_lem pv nx in
      let gone =
        forget_lem (order_at b p).client_id (order_at b p).client_order_id p out_of_circle o.client
          o.client_order o.in_pool (orders3-in_use p ∙ u) in
      simp (apart, i) (>>=-step (unlink_order (some l) p) _ b circle ∙ gone)

  -- The hypotheses under which `p` is taken out of a circle of two or more.
  pub record Taken : Type 0 where
    pub inv : Inv b
    pub used : in_use b.order_pool p ≡ true
    pub found : b.price_orders_at_price (price_to_index (order_at b p).price) ≡ some l
    pub pv : (order_at b p).prev_order ≡ some a
    pub nx : (order_at b p).next_order ≡ some c
    pub apart : a ≢ p

  module _ (t : Taken) where
    open t use {inv, used, found, pv, nx, apart}

    orders-Agree : Agree (remove p (orders_of b)) (orders_of unlinked)
    unfolding remove
    orders-Agree = record {
      live = λ q. ground arith;
      nx = λ q h. ground (arith, pv, nx);
      pv = λ q h. ground (arith, pv, nx);
      group = λ q h. ground arith;
      rank = λ q h. ground arith;
      head = λ i. elim (Option-cases (b.price_orders_at_price i)) [
        | inl e ↦ ground (arith, pv, nx)
        | inr (m, e) ↦ ground (arith, pv, nx, inv.price_index i m e, inv.price_index _ l found)
      ];
    }

    levels-Agree : Agree (levels_of b) (levels_of unlinked)
    levels-Agree = record {
      live = λ q. ground arith;
      nx = λ q h. ground arith;
      pv = λ q h. ground arith;
      group = λ q h. ground arith;
      rank = λ q h. ground arith;
      head = λ g. refl;
    }

    unlinked-OrderOk : (q : ℕ) → in_use unlinked.order_pool q ≡ true → OrderOk unlinked q
    unlinked-OrderOk q h =
        let k : in_use b.order_pool q ≡ true = ground arith in
        let o = inv.order q k in
        record {
          in_pool = o.in_pool;
          next = ground (arith, o.next);
          prev = ground (arith, o.prev);
          client = ground (arith, o.client);
          client_order = ground (arith, o.client_order);
          priority = ground (arith, o.priority);
          same_price = λ m e. ground (arith, o.same_price m);
        }

    unlinked-LevelOk : (m : ℕ) → in_use unlinked.orders_at_price_pool m ≡ true → LevelOk unlinked m
    unlinked-LevelOk m h =
        let k : in_use b.orders_at_price_pool m ≡ true = ground arith in
        let o = inv.level m k in
        record {
          in_pool = ground (arith, o.in_pool);
          next = ground (arith, o.next);
          prev = ground (arith, o.prev);
          first = ground (arith, o.first);
          indexed = ground (arith, o.indexed);
          side = ground (arith, o.side);
          price = ground (arith, o.price);
        }

    -- An order that is not the last one at its price leaves the book, and the invariant stays.
    pub unlinked-Inv : Inv unlinked
    unlinked-Inv = record {
      order_pool = release-IsValid orders3 p (record {
        in_range = inv.order_pool.in_range;
        free = ground (arith, orders3-in_use b.order_pool.next_free_index, inv.order_pool.free);
      });
      level_pool = record {
        in_range = ground (arith, inv.level_pool.in_range);
        free = ground (arith, inv.level_pool.free);
      };
      orders =
          Agree-IsOk (remove p (orders_of b)) (orders_of unlinked)
            (remove-IsOk (orders_of b) p inv.orders used) orders-Agree;
      levels = Agree-IsOk (levels_of b) (levels_of unlinked) inv.levels levels-Agree;
      order = unlinked-OrderOk;
      level = unlinked-LevelOk;
      price_index = λ i m e. ground (arith, inv.price_index i m e);
      id_index = λ x o q e. ground (arith, inv.id_index x o q);
    }
