-- ===== src/Exchange/Matcher/Inv/Drop.antt =====
-- `removeOrder` and `removeOrdersAtPrice` of exchange/matcher/me_order_book.h for the last order at
-- its price: the book after it, and the invariant.
use low_latency_electronic_t.Prelude.{
  ℕ, ◌<◌, ◌≡◌, ℤ, ◌∙◌, refl, inl, inr, true, Option, none, some, ptr_eq, ◌==◌, if◌then◌else◌,
  update, arith, Bool-cases,
}
use low_latency_electronic_t.Common.Types.{Side}
use low_latency_electronic_t.Common.MemPool.{MemPool}
use low_latency_electronic_t.Exchange.Matcher.Book.{
  poke, MeOrdersAtPrice, MeOrderBook, level_at, price_to_index, get_orders_at_price, best, set_best,
}
use low_latency_electronic_t.Exchange.Matcher.Levels.{unlink_level, remove_orders_at_price}
use low_latency_electronic_t.Exchange.Matcher.Inv.Forget.{>>=-step, release, free_level-release}
use low_latency_electronic_t.Exchange.Matcher.Inv.{in_use}

abbrev pub best_of : Side → MeOrderBook → Option ℕ
best_of Side.buy b = b.bids_by_price
best_of _ b = b.asks_by_price

abbrev pub bids_with : Side → Option ℕ → MeOrderBook → Option ℕ
bids_with Side.buy e b = e
bids_with _ e b = b.bids_by_price

abbrev pub asks_with : Side → Option ℕ → MeOrderBook → Option ℕ
asks_with Side.buy e b = b.asks_by_price
asks_with _ e b = e

pub best-best_of : (s : Side) (b : MeOrderBook) → best s b ≡ best_of s b
unfolding best
best-best_of Side.buy b = refl
best-best_of Side.sell b = refl
best-best_of Side.invalid b = refl
best-best_of Side.max b = refl

pub set_best_lem :
    (s : Side) (e : Option ℕ) (b : MeOrderBook)
    → set_best s e b ≡ record b { bids_by_price = bids_with s e b; asks_by_price = asks_with s e b }
unfolding set_best
set_best_lem Side.buy e b = refl
set_best_lem Side.sell e b = refl
set_best_lem Side.invalid e b = refl
set_best_lem Side.max e b = refl

-- The level `l` of the side `s` stands between the levels `a` and `c`.
module _ (b : MeOrderBook) (l a c : ℕ) (s : Side) where
  abbrev levels1 : MemPool MeOrdersAtPrice
  levels1 = poke b.orders_at_price_pool a (record (level_at b a) { next_entry = some c })

  abbrev levels2 : MemPool MeOrdersAtPrice
  levels2 = poke levels1 c (record (levels1.store c).object { prev_entry = some a })

  abbrev levels3 : MemPool MeOrdersAtPrice
  levels3 =
      poke levels2 l (record (levels2.store l).object { prev_entry = none; next_entry = none })

  -- The levels and the head of the side once `l` is out of the circle.
  abbrev pub new_levels : MemPool MeOrdersAtPrice
  new_levels = if c == l then b.orders_at_price_pool else levels3

  abbrev pub new_head : Option ℕ
  new_head =
      if c == l then none else (if ptr_eq (some l) (best_of s b) then some c else best_of s b)

  abbrev out_of_circle : MeOrderBook
  out_of_circle = record b {
    orders_at_price_pool = new_levels;
    bids_by_price = bids_with s new_head b;
    asks_by_price = asks_with s new_head b;
  }

  unlink_level_lem :
      (level_at b l).prev_entry ≡ some a
      → (level_at b l).next_entry ≡ some c
      → unlink_level s (best_of s b) l b ≡ some (tt, out_of_circle)
  unfolding unlink_level
  unlink_level_lem pv nx =
      let moved = set_best_lem s (some c) (record b { orders_at_price_pool = levels2 }) in
      elim (Bool-cases (c == l)) [
        | inl h ↦ simp (nx, h, set_best_lem s)
        | inr h ↦ ground (arith, pv, nx, moved)
      ]

  -- The book once the empty level `l`, whose price has the index `i`, has left it.
  abbrev pub without_level : ℕ → MeOrderBook
  without_level i = record b {
    orders_at_price_pool = release new_levels l;
    bids_by_price = bids_with s new_head b;
    asks_by_price = asks_with s new_head b;
    price_orders_at_price = update b.price_orders_at_price i none;
  }

  pub new_levels-in_use : (m : ℕ) → in_use new_levels m ≡ in_use b.orders_at_price_pool m
  new_levels-in_use m = ground arith

  pub remove_orders_at_price_lem :
      (price : ℤ)
      → l < b.orders_at_price_pool.size
      → in_use b.orders_at_price_pool l ≡ true
      → b.price_orders_at_price (price_to_index price) ≡ some l
      → (level_at b l).prev_entry ≡ some a
      → (level_at b l).next_entry ≡ some c
      → remove_orders_at_price s price b ≡ some (tt, without_level (price_to_index price))
  unfolding remove_orders_at_price get_orders_at_price
  remove_orders_at_price_lem price h u i pv nx =
      let out = unlink_level_lem pv nx in
      let indexed : MeOrderBook = record out_of_circle {
        price_orders_at_price = update b.price_orders_at_price (price_to_index price) none;
      } in
      let freed = free_level-release l indexed (ground arith) (new_levels-in_use l ∙ u) in
      simp (best-best_of s b, i) (>>=-step (unlink_level s (best_of s b) l) _ b out ∙ freed)
