-- ===== src/Exchange/Matcher/Inv/Removal.antt =====
-- `removeOrder` of exchange/matcher/me_order_book.h returns, and keeps the invariant.
use low_latency_electronic_t.Prelude.{
  ℕ, ◌≡◌, ◌≢◌, refl, inl, inr, true, false, some, ◌==◌, if◌then◌else◌, arith, Option-cases,
  Bool-cases,
}
use low_latency_electronic_t.Exchange.Matcher.Book.{MeOrderBook, order_at, level_at, price_to_index}
use low_latency_electronic_t.Exchange.Matcher.Orders.{remove_order}
use low_latency_electronic_t.Exchange.Matcher.Inv.Forget.{unindexed}
use low_latency_electronic_t.Exchange.Matcher.Inv.Unlink.{
  unlinked, Taken, unlinked-Inv, remove_order-unlinked,
}
use low_latency_electronic_t.Exchange.Matcher.Inv.Emptied.{
  emptied, Last, emptied-Inv, remove_order-emptied,
}
use low_latency_electronic_t.Exchange.Matcher.Inv.{unwrap, in_use, Inv}

-- The book `b'` is the book `b` without the order `p`.
pub record Without (p : ℕ) (b b' : MeOrderBook) : Type 0 where
  pub inv : Inv b'
  pub used : (q : ℕ) → in_use b'.order_pool q ≡ (if q == p then false else in_use b.order_pool q)
  pub size : b'.order_pool.size ≡ b.order_pool.size
  pub level_size : b'.orders_at_price_pool.size ≡ b.orders_at_price_pool.size
  pub next_id : b'.next_market_order_id ≡ b.next_market_order_id
  pub levels :
      (l : ℕ) → in_use b'.orders_at_price_pool l ≡ true → in_use b.orders_at_price_pool l ≡ true
  pub index :
      b'.cid_oid_to_order ≡ unindexed (order_at b p).client_id (order_at b p).client_order_id b
  pub same :
      (q : ℕ)
      → q ≢ p
      → ((order_at b' q).qty ≡ (order_at b q).qty)
        × ((order_at b' q).price ≡ (order_at b q).price)
        × ((order_at b' q).side ≡ (order_at b q).side)
        × ((order_at b' q).priority ≡ (order_at b q).priority)

-- An order on the book is at a level of the price index.
pub level-known :
    (b : MeOrderBook) (p : ℕ)
    → Inv b
    → in_use b.order_pool p ≡ true
    → (l : ℕ) × (b.price_orders_at_price (price_to_index (order_at b p).price) ≡ some l)
level-known b p inv u =
    elim (Option-cases (b.price_orders_at_price (price_to_index (order_at b p).price))) [
      | inl e ↦ ground (arith, inv.orders.has_head p u)
      | inr (l, e) ↦ (l, e)
    ]

-- Removing an order on the book returns, and what it leaves is the book without that order, with
-- the invariant.
pub remove_order-Without :
    (p : ℕ) (b : MeOrderBook)
    → Inv b
    → in_use b.order_pool p ≡ true
    → (b' : MeOrderBook) × (remove_order p b ≡ some (tt, b')) × Without p b b'
remove_order-Without p b inv u =
    let (l, found) = level-known b p inv u in
    let o = inv.order p u in
    let a = unwrap (order_at b p).prev_order in
    let c = unwrap (order_at b p).next_order in
    let v = inv.level l (inv.price_index _ l found).0 in
    elim (Bool-cases (a == p)) [
      | inl k ↦
          let t : Last b p l (unwrap (level_at b l).prev_entry) (unwrap (level_at b l).next_entry) =
            record {
              inv = inv;
              used = u;
              found = found;
              last = ground (arith, o.prev);
              pv = v.prev;
              nx = v.next;
            } in
          (
            emptied b p l _ _,
            remove_order-emptied b p l _ _ t,
            record {
              inv = emptied-Inv b p l _ _ t;
              used = λ q. ground arith;
              size = refl;
              level_size = ground arith;
              next_id = refl;
              levels = λ q h. ground arith;
              index = refl;
              same = λ q n. ground arith;
            },
          )
      | inr k ↦
          let t : Taken b p l a c = record {
            inv = inv;
            used = u;
            found = found;
            pv = o.prev;
            nx = o.next;
            apart = ground arith;
          } in
          (
            unlinked b p l a c,
            remove_order-unlinked b p l a c o u found o.prev o.next (ground arith),
            record {
              inv = unlinked-Inv b p l a c t;
              used = λ q. ground arith;
              size = refl;
              level_size = ground arith;
              next_id = refl;
              levels = λ q h. ground arith;
              index = refl;
              same = λ q n. ground arith;
            },
          )
    ]
