-- ===== src/Exchange/Matcher/Inv/Touch.antt =====
-- Writes of exchange/matcher/me_order_book.cpp that leave the lists of the book alone: messages,
-- the next market order id, and the quantity of an order.
use low_latency_electronic_t.Prelude.{ℕ, ◌≤◌, ◌≡◌, refl, true, List, arith}
use low_latency_electronic_t.Common.Rings.{Agree, Agree-IsOk}
use low_latency_electronic_t.Exchange.Matcher.Book.{poke, Sent, MeOrderBook, order_at}
use low_latency_electronic_t.Exchange.Matcher.Inv.{in_use, orders_of, Inv}

-- The book with other messages and another next market order id.
abbrev pub renewed : ℕ → List Sent → MeOrderBook → MeOrderBook
renewed n m b = record b { next_market_order_id = n; sent = m }

pub renewed-Inv :
    (n : ℕ) (m : List Sent) (b : MeOrderBook)
    → b.next_market_order_id ≤ n
    → Inv b
    → Inv (renewed n m b)
renewed-Inv n m b h inv = record {
  order_pool = inv.order_pool;
  level_pool = inv.level_pool;
  orders = inv.orders;
  levels = inv.levels;
  order = λ p u.
      let o = inv.order p u in
      record {
        in_pool = o.in_pool;
        next = o.next;
        prev = o.prev;
        client = o.client;
        client_order = o.client_order;
        priority = omega (arith, o.priority);
        same_price = o.same_price;
      };
  level = λ l u.
      let o = inv.level l u in
      record {
        in_pool = o.in_pool;
        next = o.next;
        prev = o.prev;
        first = o.first;
        indexed = o.indexed;
        side = o.side;
        price = o.price;
      };
  price_index = inv.price_index;
  id_index = inv.id_index;
}

-- The book with another quantity in the order `p`.
module _ (p q : ℕ) (b : MeOrderBook) where
  abbrev pub with_qty : MeOrderBook
  with_qty = record b { order_pool = poke b.order_pool p (record (order_at b p) { qty = q }) }

  orders-Agree : Agree (orders_of b) (orders_of with_qty)
  orders-Agree = record {
    live = λ x. ground arith;
    nx = λ x h. ground arith;
    pv = λ x h. ground arith;
    group = λ x h. ground arith;
    rank = λ x h. ground arith;
    head = λ i. refl;
  }

  pub with_qty-Inv : Inv b → Inv with_qty
  with_qty-Inv inv = record {
    order_pool = record {
      in_range = inv.order_pool.in_range;
      free = ground (arith, inv.order_pool.free);
    };
    level_pool = inv.level_pool;
    orders = Agree-IsOk (orders_of b) (orders_of with_qty) inv.orders orders-Agree;
    levels = inv.levels;
    order = λ x u.
        let k : in_use b.order_pool x ≡ true = ground arith in
        let o = inv.order x k in
        record {
          in_pool = o.in_pool;
          next = ground (arith, o.next);
          prev = ground (arith, o.prev);
          client = ground (arith, o.client);
          client_order = ground (arith, o.client_order);
          priority = ground (arith, o.priority);
          same_price = λ m e. ground (arith, o.same_price m);
        };
    level = λ l u.
        let o = inv.level l u in
        record {
          in_pool = o.in_pool;
          next = o.next;
          prev = o.prev;
          first = o.first;
          indexed = o.indexed;
          side = o.side;
          price = o.price;
        };
    price_index = inv.price_index;
    id_index = λ c o x e. ground (arith, inv.id_index c o x e);
  }
