-- ===== src/Exchange/Matcher/Inv.antt =====
-- The invariant of the matching engine's order book (exchange/matcher/me_order_book.h).
pub mod Forget
pub mod Unlink
pub mod Drop
pub mod Emptied
pub mod Removal
pub mod Touch
pub mod Fill
pub mod Front
pub mod Loop
pub mod Matching
pub mod Cancel
pub mod Append
pub mod Walk
pub mod Link
pub mod Enter
pub mod NewLevel
pub mod NewPrice
pub mod Rest
pub mod Add
pub mod Taken
pub mod Reach
use low_latency_electronic_t.Prelude.{
  ℕ, ◌+◌, ◌-◌, ◌^◌, ◌<◌, ◌≤◌, ◌≡◌, ◌≢◌, ◌⊎◌, ℤ, pos_part, neg_part, Bool, true, false, not, Option,
  none, some, ◌==◌, if◌then◌else◌,
}
use low_latency_electronic_t.Common.Types.{
  Side, side_to_index, me_max_num_clients, me_max_order_ids,
}
use low_latency_electronic_t.Common.MemPool.{MemPool}
use low_latency_electronic_t.Common.MemPool
use low_latency_electronic_t.Common.MemPool.Laws
use low_latency_electronic_t.Common.Rings.{Rings, IsOk}
use low_latency_electronic_t.Exchange.Matcher.Book.{
  MeOrder, MeOrdersAtPrice, MeOrderBook, order_at, level_at, price_to_index,
}

-- The number in a pointer that is not null.
abbrev pub unwrap : Option ℕ → ℕ
unwrap none = 0
unwrap (some p) = p

-- A block in use.
abbrev pub in_use {ℓ} : {T : Type ℓ} → MemPool T → ℕ → Bool
in_use pool p = not (pool.store p).is_free

-- The range of `int64_t`.
abbrev pub IsPrice : ℤ → Type 0
IsPrice a = (pos_part a < 2 ^ 63) × (neg_part a ≤ 2 ^ 63)

-- The better a price is for the other side, the lower it ranks.
abbrev pub price_rank : Side → ℤ → ℕ
price_rank Side.buy a = 2 ^ 63 + neg_part a - pos_part a
price_rank _ a = 2 ^ 63 + pos_part a - neg_part a

-- The orders of each price index, in the order of their priorities.
abbrev pub orders_of : MeOrderBook → Rings
orders_of b = record {
  live = in_use b.order_pool;
  nx = λ p. unwrap (order_at b p).next_order;
  pv = λ p. unwrap (order_at b p).prev_order;
  group = λ p. price_to_index (order_at b p).price;
  rank = λ p. (order_at b p).priority;
  head = λ i. elim (b.price_orders_at_price i) [
    | none ↦ none
    | some l ↦ (level_at b l).first_me_order
  ];
}

-- The levels of each side, the best first.
abbrev pub levels_of : MeOrderBook → Rings
levels_of b = record {
  live = in_use b.orders_at_price_pool;
  nx = λ l. unwrap (level_at b l).next_entry;
  pv = λ l. unwrap (level_at b l).prev_entry;
  group = λ l. side_to_index (level_at b l).side;
  rank = λ l. price_rank (level_at b l).side (level_at b l).price;
  head = λ g. if g == 2 then b.bids_by_price else if g == 0 then b.asks_by_price else none;
}

-- An order on the book: its links are not null, its ids are in range, and
-- its level is the one at its price.
pub record OrderOk (b : MeOrderBook) (p : ℕ) : Type 0 where
  pub in_pool : p < b.order_pool.size
  pub next : (order_at b p).next_order ≡ some (unwrap (order_at b p).next_order)
  pub prev : (order_at b p).prev_order ≡ some (unwrap (order_at b p).prev_order)
  pub client : (order_at b p).client_id < me_max_num_clients
  pub client_order : (order_at b p).client_order_id < me_max_order_ids
  pub priority : (order_at b p).priority < b.next_market_order_id
  pub same_price :
      (l : ℕ)
      → b.price_orders_at_price (price_to_index (order_at b p).price) ≡ some l
      → ((level_at b l).price ≡ (order_at b p).price) × ((level_at b l).side ≡ (order_at b p).side)

-- A level on the book.
pub record LevelOk (b : MeOrderBook) (l : ℕ) : Type 0 where
  pub in_pool : l < b.orders_at_price_pool.size
  pub next : (level_at b l).next_entry ≡ some (unwrap (level_at b l).next_entry)
  pub prev : (level_at b l).prev_entry ≡ some (unwrap (level_at b l).prev_entry)
  pub first : (level_at b l).first_me_order ≡ some (unwrap (level_at b l).first_me_order)
  pub indexed : b.price_orders_at_price (price_to_index (level_at b l).price) ≡ some l
  pub side : ((level_at b l).side ≡ Side.buy) ⊎ ((level_at b l).side ≡ Side.sell)
  pub price : IsPrice (level_at b l).price

-- The price index and the index of the clients' ids point to levels and orders on the book.
pub record Inv (b : MeOrderBook) : Type 0 where
  pub order_pool : MemPool.Laws.IsValid b.order_pool
  pub level_pool : MemPool.Laws.IsValid b.orders_at_price_pool
  pub orders : IsOk (orders_of b)
  pub levels : IsOk (levels_of b)
  pub order : (p : ℕ) → in_use b.order_pool p ≡ true → OrderOk b p
  pub level : (l : ℕ) → in_use b.orders_at_price_pool l ≡ true → LevelOk b l
  pub price_index :
      (i l : ℕ)
      → b.price_orders_at_price i ≡ some l
      → (in_use b.orders_at_price_pool l ≡ true) × (price_to_index (level_at b l).price ≡ i)
  pub id_index :
      (c o p : ℕ)
      → b.cid_oid_to_order c o ≡ some p
      → (in_use b.order_pool p ≡ true)
        × ((order_at b p).client_id ≡ c)
        × ((order_at b p).client_order_id ≡ o)
