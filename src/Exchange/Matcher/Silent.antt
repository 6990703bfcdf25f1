-- ===== src/Exchange/Matcher/Silent.antt =====
-- The steps of the order book (exchange/matcher/me_order_book.h) that send nothing: an order that
-- leaves the book.
pub mod Join
use low_latency_electronic_t.Prelude.{
  List, ℕ, ℤ, ◌≡◌, refl, ◌∙◌, Option, none, some, arith, Option-cases, Bool-cases, inl, inr, update,
  ptr_eq, Bool, true, false,
}
use low_latency_electronic_t.Common.MemPool
use low_latency_electronic_t.Common.Types.{Side}
use low_latency_electronic_t.Exchange.Matcher.Book.{
  Sent, M, poke, put_order, ◌>>=◌, ◌>>◌, MeOrdersAtPrice, level_at, allocate_level, allocate_order,
  MeOrder, MeOrderBook, modify, order_at, price_to_index, free_level, free_order, best, set_best,
  get_orders_at_price,
}
use low_latency_electronic_t.Exchange.Matcher.Levels.{
  unlink_level, remove_orders_at_price, promote, insert_before, insert_after, add_orders_at_price,
  find_place,
}
use low_latency_electronic_t.Exchange.Matcher.Orders.{
  unlink_order, remove_order, set_index, append_order, add_order,
}

-- What a step that sends nothing and takes no market order id leaves alone.
abbrev pub frame : MeOrderBook → List Sent × ℕ
frame b = (b.sent, b.next_market_order_id)

-- The second of two steps that succeed together.
pub >>=-inv :
    {A B : Type 0} (m : M A) (k : A → M B) (b : MeOrderBook) {c : B} {b' : MeOrderBook}
    → (m >>= k) b ≡ some (c, b')
    → (a : A) × (b1 : MeOrderBook) × (m b ≡ some (a, b1)) × (k a b1 ≡ some (c, b'))
>>=-inv m k b h = elim (Option-cases (m b)) [
  | inl n ↦ absurd (ground arith)
  | inr ((a, b1), q) ↦ (a, b1, q, ground arith)
]

pub set_best-frame : (s : Side) (p : Option ℕ) (b : MeOrderBook) → frame (set_best s p b) ≡ frame b
unfolding set_best
set_best-frame Side.buy p b = refl
set_best-frame Side.sell p b = refl
set_best-frame Side.invalid p b = refl
set_best-frame Side.max p b = refl

unlink_level-frame :
    (s : Side) (head : Option ℕ) (p : ℕ) (b : MeOrderBook) {b' : MeOrderBook}
    → unlink_level s head p b ≡ some (tt, b')
    → frame b' ≡ frame b
unfolding unlink_level
unlink_level-frame s head p b e = grind (arith, set_best-frame)

free_level-frame :
    (p : ℕ) (b : MeOrderBook) {b' : MeOrderBook}
    → free_level p b ≡ some (tt, b')
    → frame b' ≡ frame b
unfolding free_level
free_level-frame p b e = elim (Option-cases (MemPool.deallocate b.orders_at_price_pool p)) [
  | inl n ↦ absurd (ground arith)
  | inr (pool, q) ↦ ground arith
]

free_order-frame :
    (p : ℕ) (b : MeOrderBook) {b' : MeOrderBook}
    → free_order p b ≡ some (tt, b')
    → frame b' ≡ frame b
unfolding free_order
free_order-frame p b e = elim (Option-cases (MemPool.deallocate b.order_pool p)) [
  | inl n ↦ absurd (ground arith)
  | inr (pool, q) ↦ ground arith
]

unlink_order-frame :
    (found : Option ℕ) (p : ℕ) (b : MeOrderBook) {b' : MeOrderBook}
    → unlink_order found p b ≡ some (tt, b')
    → frame b' ≡ frame b
unfolding unlink_order
unlink_order-frame found p b e = ground arith

pub set_index-frame :
    (c o : ℕ) (e : Option ℕ) (b : MeOrderBook) {b' : MeOrderBook}
    → set_index c o e b ≡ some (tt, b')
    → frame b' ≡ frame b
set_index-frame c o e b h = ground arith

-- The end of `removeOrdersAtPrice` and of `removeOrder`.
abbrev unindex_level : ℤ → ℕ → M (Unit {0})
unindex_level price p = do
  modify λ b. record b {
    price_orders_at_price = update b.price_orders_at_price (price_to_index price) none;
  }
  free_level p

abbrev forget_order : MeOrder → ℕ → M (Unit {0})
forget_order o p = do set_index o.client_id o.client_order_id none; free_order p

forget_order-frame :
    (o : MeOrder) (p : ℕ) (b : MeOrderBook) {b' : MeOrderBook}
    → forget_order o p b ≡ some (tt, b')
    → frame b' ≡ frame b
forget_order-frame o p b e =
    let (_, b1, u, r) =
      >>=-inv (set_index o.client_id o.client_order_id none) (λ _. free_order p) b e in
    free_order-frame p b1 r ∙ set_index-frame o.client_id o.client_order_id none b u

remove_orders_at_price-frame :
    (s : Side) (price : ℤ) (b : MeOrderBook) {b' : MeOrderBook}
    → remove_orders_at_price s price b ≡ some (tt, b')
    → frame b' ≡ frame b
unfolding remove_orders_at_price
remove_orders_at_price-frame s price b e = elim (Option-cases (get_orders_at_price price b)) [
  | inl n ↦ absurd (ground arith)
  | inr (p, q) ↦
      let (_, b1, u, r) =
        >>=-inv (unlink_level s (best s b) p) (λ _. unindex_level price p) b (rw q at e) in
      free_level-frame p
        (record b1 {
          price_orders_at_price = update b1.price_orders_at_price (price_to_index price) none;
        })
        r
      ∙ unlink_level-frame s (best s b) p b u
]

-- An order that leaves the book does so without a message.
pub remove_order-frame :
    (p : ℕ) (b : MeOrderBook) {b' : MeOrderBook}
    → remove_order p b ≡ some (tt, b')
    → frame b' ≡ frame b
unfolding remove_order
remove_order-frame p b {b'} e = elim (Bool-cases (ptr_eq o.prev_order (some p))) [
  | inl h ↦
      let (_, b1, u, r) =
        >>=-inv (remove_orders_at_price o.side o.price) (λ _. forget_order o p) b (rw h at e) in
      forget_order-frame o p b1 r ∙ remove_orders_at_price-frame o.side o.price b u
  | inr h ↦
      let (_, b1, u, r) =
        >>=-inv (unlink_order (get_orders_at_price o.price b) p) (λ _. forget_order o p) b
          (rw h at e) in
      forget_order-frame o p b1 r ∙ unlink_order-frame (get_orders_at_price o.price b) p b u
]
  where
    o : MeOrder
    o = order_at b p
