-- ===== src/Exchange/Matcher/Inv/Emptied.antt =====
-- `removeOrder` of exchange/matcher/me_order_book.h for the last order at its price: its level
-- goes too, and the invariant stays.
use low_latency_electronic_t.Prelude.{
  ℕ, ◌≡◌, ◌∙◌, inl, inr, true, none, some, ptr_eq, update, arith, Option-cases,
}
use low_latency_electronic_t.Common.Rings.{Agree, Agree-IsOk, remove}
use low_latency_electronic_t.Common.Rings.Remove.{remove-IsOk}
use low_latency_electronic_t.Exchange.Matcher.Book.{
  MeOrderBook, order_at, level_at, price_to_index, get_orders_at_price,
}
use low_latency_electronic_t.Exchange.Matcher.Levels.{remove_orders_at_price}
use low_latency_electronic_t.Exchange.Matcher.Orders.{remove_order}
use low_latency_electronic_t.Exchange.Matcher.Inv.Forget.{
  >>=-step, release, release-IsValid, unindexed, forget_lem,
}
use low_latency_electronic_t.Exchange.Matcher.Inv.Drop.{
  bids_with, asks_with, new_levels, new_head, without_level, new_levels-in_use,
  remove_orders_at_price_lem,
}
use low_latency_electronic_t.Exchange.Matcher.Inv.{
  unwrap, in_use, orders_of, levels_of, OrderOk, LevelOk, Inv,
}

-- The order `p` is the only one of the level `l`, which stands between the levels `a` and `c`.
module _ (b : MeOrderBook) (p l a c : ℕ) where
  -- The book once `p` and its level have left it.
  abbrev pub emptied : MeOrderBook
  emptied = record b {
    order_pool = release b.order_pool p;
    orders_at_price_pool = release (new_levels b l a c (order_at b p).side) l;
    bids_by_price = bids_with (order_at b p).side (new_head b l a c (order_at b p).side) b;
    asks_by_price = asks_with (order_at b p).side (new_head b l a c (order_at b p).side) b;
    price_orders_at_price =
        update b.price_orders_at_price (price_to_index (order_at b p).price) none;
    cid_oid_to_order = unindexed (order_at b p).client_id (order_at b p).client_order_id b;
  }

  -- The hypotheses under which `p` leaves with its level.
  pub record Last : Type 0 where
    pub inv : Inv b
    pub used : in_use b.order_pool p ≡ true
    pub found : b.price_orders_at_price (price_to_index (order_at b p).price) ≡ some l
    pub last : (order_at b p).prev_order ≡ some p
    pub pv : (level_at b l).prev_entry ≡ some a
    pub nx : (level_at b l).next_entry ≡ some c

  module _ (t : Last) where
    open t use {inv, used, found, last, pv, nx}

    level_used : in_use b.orders_at_price_pool l ≡ true
    level_used = (inv.price_index _ l found).0

    pub remove_order-emptied : remove_order p b ≡ some (tt, emptied)
    unfolding remove_order get_orders_at_price
    remove_order-emptied =
        let o = inv.order p used in
        let same : ptr_eq (order_at b p).prev_order (some p) ≡ true = ground arith in
        let side = (order_at b p).side in
        let index = price_to_index (order_at b p).price in
        let out =
          remove_orders_at_price_lem b l a c side (order_at b p).price
            (inv.level l level_used).in_pool level_used found pv nx in
        let gone =
          forget_lem (order_at b p).client_id (order_at b p).client_order_id p
            (without_level b l a c side index) o.client o.client_order o.in_pool used in
        simp (same) (>>=-step (remove_orders_at_price side (order_at b p).price) _ b out ∙ gone)

    orders-Agree : Agree (remove p (orders_of b)) (orders_of emptied)
    unfolding remove
    orders-Agree = record {
      live = λ q. ground arith;
      nx = λ q h. ground (arith, last);
      pv = λ q h. ground (arith, last, inv.orders.previous p used);
      group = λ q h. ground arith;
      rank = λ q h. ground arith;
      head = λ i. elim (Option-cases (b.price_orders_at_price i)) [
        | inl e ↦ ground (arith, last)
        | inr (m, e) ↦ ground (arith, last, inv.price_index i m e, inv.price_index _ l found)
      ];
    }

    -- The neighbours of `l` point to it.
    circle : (unwrap (level_at b c).prev_entry ≡ l) × (unwrap (level_at b a).next_entry ≡ l)
    circle = ground (arith, pv, nx, inv.levels.next l level_used, inv.levels.previous l level_used)

    same_side : (level_at b l).side ≡ (order_at b p).side
    same_side = ((inv.order p used).same_price l found).1

    levels-Agree : Agree (remove l (levels_of b)) (levels_of emptied)
    unfolding remove
    levels-Agree = record {
      live = λ q. ground arith;
      nx = λ q h. ground (arith, pv, nx, circle);
      pv = λ q h. ground (arith, pv, nx, circle);
      group = λ q h. ground arith;
      rank = λ q h. ground arith;
      head = λ g. ground (arith, pv, nx, circle, same_side, inv.level l level_used);
    }

    emptied-OrderOk : (q : ℕ) → in_use emptied.order_pool q ≡ true → OrderOk emptied q
    emptied-OrderOk q h =
        let k : in_use b.order_pool q ≡ true = ground arith in
        let o = inv.order q k in
        record {
          in_pool = o.in_pool;
          next = ground (arith, o.next);
          prev = ground (arith, o.prev);
          client = ground (arith, o.client);
          client_order = ground (arith, o.client_order);
          priority = ground (arith, o.priority);
          same_price = λ m e. ground (arith, o.same_price m);
        }

    emptied-LevelOk : (m : ℕ) → in_use emptied.orders_at_price_pool m ≡ true → LevelOk emptied m
    emptied-LevelOk m h =
        let k : in_use b.orders_at_price_pool m ≡ true = ground arith in
        let o = inv.level m k in
        record {
          in_pool = ground (arith, o.in_pool);
          next = ground (arith, o.next);
          prev = ground (arith, o.prev);
          first = ground (arith, o.first);
          indexed = ground (arith, o.indexed, found);
          side = ground (arith, o.side);
          price = ground (arith, o.price);
        }

    -- The last order at its price leaves the book with its level, and the invariant stays.
    pub emptied-Inv : Inv emptied
    emptied-Inv = record {
      order_pool = release-IsValid b.order_pool p inv.order_pool;
      level_pool = release-IsValid (new_levels b l a c (order_at b p).side) l (record {
        in_range = ground (arith, inv.level_pool.in_range);
        free = ground (
          arith,
          new_levels-in_use b l a c (order_at b p).side b.orders_at_price_pool.next_free_index,
          inv.level_pool.free,
        );
      });
      orders =
          Agree-IsOk (remove p (orders_of b)) (orders_of emptied)
            (remove-IsOk (orders_of b) p inv.orders used) orders-Agree;
      levels =
          Agree-IsOk (remove l (levels_of b)) (levels_of emptied)
            (remove-IsOk (levels_of b) l inv.levels level_used) levels-Agree;
      order = emptied-OrderOk;
      level = emptied-LevelOk;
      price_index = λ i m e. ground (arith, inv.price_index i m, inv.price_index _ l found);
      id_index = λ x o q e. ground (arith, inv.id_index x o q);
    }
