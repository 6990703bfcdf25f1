-- ===== src/Exchange/Matcher/Inv/Forget.antt =====
-- The end of `removeOrder` of exchange/matcher/me_order_book.h: the order leaves the index of the
-- clients' ids and its block is given back.
use low_latency_electronic_t.Prelude.{ℕ, ◌<◌, ◌≡◌, true, Option, none, some, update, arith}
use low_latency_electronic_t.Common.Types.{me_max_num_clients, me_max_order_ids}
use low_latency_electronic_t.Common.MemPool.{MemPool}
use low_latency_electronic_t.Common.MemPool
use low_latency_electronic_t.Common.MemPool.Laws
use low_latency_electronic_t.Exchange.Matcher.Book.{
  M, ◌>>=◌, ◌>>◌, MeOrderBook, free_order, free_level,
}
use low_latency_electronic_t.Exchange.Matcher.Orders.{set_index}
use low_latency_electronic_t.Exchange.Matcher.Inv.{in_use}

-- The second of two steps, once the first has succeeded.
pub >>=-step :
    {A B : Type 0} (m : M A) (k : A → M B) (b : MeOrderBook) {a : A} {b1 : MeOrderBook}
    → m b ≡ some (a, b1)
    → (m >>= k) b ≡ k a b1
>>=-step m k b e = ground arith

-- The block is free again.
abbrev pub release {ℓ} : {T : Type ℓ} → MemPool T → ℕ → MemPool T
release pool p = record pool {
  store = update pool.store p (record { object = (pool.store p).object; is_free = true });
}

pub deallocate-release {ℓ} :
    {T : Type ℓ} (pool : MemPool T) (p : ℕ)
    → p < pool.size
    → in_use pool p ≡ true
    → MemPool.deallocate pool p ≡ some (release pool p)
unfolding MemPool.deallocate
deallocate-release pool p h u = ground arith

pub release-IsValid {ℓ} :
    {T : Type ℓ} (pool : MemPool T) (p : ℕ)
    → MemPool.Laws.IsValid pool
    → MemPool.Laws.IsValid (release pool p)
release-IsValid pool p v = record { in_range = v.in_range; free = ground (arith, v.free) }

pub free_level-release :
    (p : ℕ) (b : MeOrderBook)
    → p < b.orders_at_price_pool.size
    → in_use b.orders_at_price_pool p ≡ true
    → free_level p b
      ≡ some (tt, record b { orders_at_price_pool = release b.orders_at_price_pool p })
unfolding free_level
free_level-release p b h u = simp (free_level, deallocate-release b.orders_at_price_pool p h u)

abbrev pub unindexed : ℕ → ℕ → MeOrderBook → ℕ → ℕ → Option ℕ
unindexed c o b = update b.cid_oid_to_order c (update (b.cid_oid_to_order c) o none)

pub forget_lem :
    (c o p : ℕ) (b : MeOrderBook)
    → c < me_max_num_clients
    → o < me_max_order_ids
    → p < b.order_pool.size
    → in_use b.order_pool p ≡ true
    → (set_index c o none >> free_order p) b
      ≡ some
          (tt, record b { cid_oid_to_order = unindexed c o b; order_pool = release b.order_pool p })
unfolding free_order
forget_lem c o p b h k i u = ground (arith, deallocate-release b.order_pool p i u)
