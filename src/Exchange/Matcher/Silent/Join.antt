-- ===== src/Exchange/Matcher/Silent/Join.antt =====
-- The steps of the order book (exchange/matcher/me_order_book.h) that send nothing: an order that
-- joins the book.
use low_latency_electronic_t.Prelude.{
  ℕ, ℤ, ◌≡◌, ◌∙◌, none, some, arith, Option-cases, inl, inr, update, true, false,
}
use low_latency_electronic_t.Common.MemPool
use low_latency_electronic_t.Exchange.Matcher.Book.{
  M, poke, put_order, ◌>>=◌, ◌>>◌, MeOrdersAtPrice, level_at, allocate_level, allocate_order,
  MeOrder, MeOrderBook, order_at, price_to_index, best, get_orders_at_price,
}
use low_latency_electronic_t.Exchange.Matcher.Levels.{
  promote, insert_before, insert_after, add_orders_at_price, find_place,
}
use low_latency_electronic_t.Exchange.Matcher.Orders.{
  set_index, append_order, add_order, get_next_priority,
}
use low_latency_electronic_t.Exchange.Matcher.Silent.{
  frame, >>=-inv, set_best-frame, set_index-frame,
}

promote-frame :
    (new head target : ℕ) (b : MeOrderBook) {b' : MeOrderBook}
    → promote new head target b ≡ some (tt, b')
    → frame b' ≡ frame b
unfolding promote
promote-frame new head target b e = grind (arith, set_best-frame)

insert_before-frame :
    (new head target : ℕ) (b : MeOrderBook) {b' : MeOrderBook}
    → insert_before new head target b ≡ some (tt, b')
    → frame b' ≡ frame b
unfolding insert_before
insert_before-frame new head target b e = elim (Option-cases (level_at b target).prev_entry) [
  | inl n ↦ absurd (ground arith)
  | inr (prev, q) ↦ promote-frame new head target _ (simp q at e)
]

insert_after-frame :
    (new head target : ℕ) (b : MeOrderBook) {b' : MeOrderBook}
    → insert_after new head target b ≡ some (tt, b')
    → frame b' ≡ frame b
unfolding insert_after
insert_after-frame new head target b e = ground arith

append_order-frame :
    (l p : ℕ) (b : MeOrderBook) {b' : MeOrderBook}
    → append_order l p b ≡ some (tt, b')
    → frame b' ≡ frame b
unfolding append_order
append_order-frame l p b e = ground arith

allocate_level-frame :
    (l : MeOrdersAtPrice) (b : MeOrderBook) {p : ℕ} {b' : MeOrderBook}
    → allocate_level l b ≡ some (p, b')
    → frame b' ≡ frame b
unfolding allocate_level
allocate_level-frame l b e = elim (Option-cases (MemPool.allocate b.orders_at_price_pool l)) [
  | inl n ↦ absurd (ground arith)
  | inr ((p, pool), q) ↦ ground arith
]

pub allocate_order-frame :
    (o : MeOrder) (b : MeOrderBook) {p : ℕ} {b' : MeOrderBook}
    → allocate_order o b ≡ some (p, b')
    → frame b' ≡ frame b
unfolding allocate_order
allocate_order-frame o b e = elim (Option-cases (MemPool.allocate b.order_pool o)) [
  | inl n ↦ absurd (ground arith)
  | inr ((p, pool), q) ↦ ground arith
]

add_orders_at_price-frame :
    (new : ℕ) (b : MeOrderBook) {b' : MeOrderBook}
    → add_orders_at_price new b ≡ some (tt, b')
    → frame b' ≡ frame b
unfolding add_orders_at_price
add_orders_at_price-frame new b {b'} e = elim (Option-cases (best level.side b1)) [
  | inl h ↦ grind (arith, set_best-frame)
  | inr (head, h) ↦ elim (Option-cases (find_place (level_at b) level.side level.price head size)) [
    | inl f ↦ absurd (ground arith)
    | inr ((target, true), f) ↦ insert_after-frame new head target b1 {b' = b'} (ground arith)
    | inr ((target, false), f) ↦ insert_before-frame new head target b1 {b' = b'} (ground arith)
  ]
]
  where
    level : MeOrdersAtPrice
    level = level_at b new

    size : ℕ
    size = b.orders_at_price_pool.size

    b1 : MeOrderBook
    b1 = record b {
      price_orders_at_price =
          update b.price_orders_at_price (price_to_index level.price) (some new);
    }

-- An order that joins the book does so without a message.
pub add_order-frame :
    (p : ℕ) (b : MeOrderBook) {b' : MeOrderBook}
    → add_order p b ≡ some (tt, b')
    → frame b' ≡ frame b
unfolding add_order
add_order-frame p b {b'} e = elim (Option-cases (get_orders_at_price o.price b)) [
  | inl h ↦
      let (_, b3, r, i) =
        >>=-inv
          (put_order p (λ o. record o { prev_order = some p; next_order = some p })
            >> (allocate_level first >>= add_orders_at_price))
          (λ _. indexed) b (rw h at e) in
      let (l, b2, q, a) = >>=-inv (allocate_level first) add_orders_at_price b1 r in
      set_index-frame o.client_id o.client_order_id (some p) b3 i
      ∙ add_orders_at_price-frame l b2 a
      ∙ allocate_level-frame first b1 q
  | inr (l, h) ↦
      let (_, b3, a, i) = >>=-inv (append_order l p) (λ _. indexed) b (rw h at e) in
      set_index-frame o.client_id o.client_order_id (some p) b3 i ∙ append_order-frame l p b a
]
  where
    o : MeOrder
    o = order_at b p

    indexed : M (Unit {0})
    indexed = set_index o.client_id o.client_order_id (some p)

    first : MeOrdersAtPrice
    first = record {
      side = o.side;
      price = o.price;
      first_me_order = some p;
      prev_entry = none;
      next_entry = none;
    }

    b1 : MeOrderBook
    b1 = record b {
      order_pool = poke b.order_pool p (record o { prev_order = some p; next_order = some p });
    }

pub get_next_priority-frame :
    (price : ℤ) (b : MeOrderBook) {n : ℕ} {b' : MeOrderBook}
    → get_next_priority price b ≡ some (n, b')
    → frame b' ≡ frame b
unfolding get_next_priority
get_next_priority-frame price b e = elim (Option-cases (get_orders_at_price price b)) [
  | inl h ↦ ground arith
  | inr (l, h) ↦ ground arith
]
