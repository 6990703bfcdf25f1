-- ===== src/Exchange/Matcher/Inv/Reach.antt =====
-- The books that `add` and `cancel` of exchange/matcher/me_order_book.cpp make of a new one.
use low_latency_electronic_t.Prelude.{
  ℕ, ◌+◌, ◌^◌, true, count-zero, ◌<◌, ◌≡◌, ◌∙◌, sym, subst, refl, false, Option, none, some, ℤ,
  arith,
}
use low_latency_electronic_t.Common.Types.{Side, me_max_order_ids, me_max_price_levels}
use low_latency_electronic_t.Common.MemPool.{MemPool}
use low_latency_electronic_t.Common.MemPool
use low_latency_electronic_t.Common.MemPool.Laws
use low_latency_electronic_t.Exchange.Matcher.Book.{
  MeOrderBook, new_book, default_order, default_level, order_at, price_to_index,
}
use low_latency_electronic_t.Exchange.Matcher.Match.{add, cancel}
use low_latency_electronic_t.Exchange.Matcher.Inv.{in_use}
use low_latency_electronic_t.Exchange.Matcher.Inv.Fill.{BookOk, IsUncrossed, live_count}
use low_latency_electronic_t.Exchange.Matcher.Inv.Cancel.{cancel-returns}
use low_latency_electronic_t.Exchange.Matcher.Inv.Rest.{OrderIn, level_count}
use low_latency_electronic_t.Exchange.Matcher.Inv.Add.{CanTake, resting}
use low_latency_electronic_t.Exchange.Matcher.Inv.Taken.{add-returns}

-- A new book, its two index arrays filled with null pointers.
abbrev pub empty_book : ℕ → MeOrderBook
empty_book ticker_id = new_book ticker_id (λ _ _. none) (λ _. none)

-- A book without orders and levels.
pub record Fresh (b : MeOrderBook) : Type 0 where
  pub order_pool : MemPool.Laws.IsValid b.order_pool
  pub level_pool : MemPool.Laws.IsValid b.orders_at_price_pool
  pub orders : (p : ℕ) → in_use b.order_pool p ≡ false
  pub levels : (l : ℕ) → in_use b.orders_at_price_pool l ≡ false
  pub bids : b.bids_by_price ≡ none
  pub asks : b.asks_by_price ≡ none
  pub price_index : (i : ℕ) → b.price_orders_at_price i ≡ none
  pub id_index : (c o : ℕ) → b.cid_oid_to_order c o ≡ none

pub Fresh-BookOk : (b : MeOrderBook) → Fresh b → BookOk b
Fresh-BookOk b f = record {
  inv = record {
    order_pool = f.order_pool;
    level_pool = f.level_pool;
    orders = record {
      next = λ p h. absurd (ground (arith, f.orders p));
      previous = λ p h. absurd (ground (arith, f.orders p));
      has_head = λ p h. absurd (ground (arith, f.orders p));
      head_is = λ g h e. absurd (ground (arith, f.price_index g));
      rises = λ p h. absurd (ground (arith, f.orders p));
    };
    levels = record {
      next = λ p h. absurd (ground (arith, f.levels p));
      previous = λ p h. absurd (ground (arith, f.levels p));
      has_head = λ p h. absurd (ground (arith, f.levels p));
      head_is = λ g h e. absurd (ground (arith, f.bids, f.asks));
      rises = λ p h. absurd (ground (arith, f.levels p));
    };
    order = λ p h. absurd (ground (arith, f.orders p));
    level = λ p h. absurd (ground (arith, f.levels p));
    price_index = λ i l e. absurd (ground (arith, f.price_index i));
    id_index = λ c o p e. absurd (ground (arith, f.id_index c o));
  };
  unfilled = λ p h. absurd (ground (arith, f.orders p));
}

pub empty_book-Fresh : (ticker_id : ℕ) → Fresh (empty_book ticker_id)
unfolding new_book MemPool.init
empty_book-Fresh ticker_id = record {
  order_pool = MemPool.Laws.init-IsValid me_max_order_ids default_order (omega arith);
  level_pool = MemPool.Laws.init-IsValid me_max_price_levels default_level (omega arith);
  orders = λ p. refl;
  levels = λ l. refl;
  bids = refl;
  asks = refl;
  price_index = λ i. refl;
  id_index = λ c o. refl;
}

-- What a new order asks of the book it comes to: room in both pools, a market order id that is no
-- larger than 2^64 - 1, and no order of another price at the index of its price.
pub record Room (price : ℤ) (b : MeOrderBook) : Type 0 where
  pub order_room : live_count b + 1 < b.order_pool.size
  pub level_room : level_count b + 1 < b.orders_at_price_pool.size
  pub last_id : b.next_market_order_id < 2 ^ 64
  pub same_price :
      (q : ℕ)
      → in_use b.order_pool q ≡ true
      → price_to_index (order_at b q).price ≡ price_to_index price
      → (order_at b q).price ≡ price

-- A book without orders and levels, with room in its pools, has room for any order.
pub Fresh-Room :
    (price : ℤ) (b : MeOrderBook)
    → Fresh b
    → 1 < b.order_pool.size
    → 1 < b.orders_at_price_pool.size
    → b.next_market_order_id < 2 ^ 64
    → Room price b
Fresh-Room price b f h k i = record {
  order_room = omega (arith, h, count-zero (in_use b.order_pool) b.order_pool.size f.orders);
  level_room =
      omega
        (arith, k, count-zero (in_use b.orders_at_price_pool) b.orders_at_price_pool.size f.levels);
  last_id = i;
  same_price = λ q u _. absurd (ground (arith, f.orders q));
}

Fresh-IsUncrossed : (b : MeOrderBook) → Fresh b → IsUncrossed b
Fresh-IsUncrossed b f p q u v = absurd (ground (arith, f.orders p))

-- The books that requests lead to, each new order one that its book has room for.
pub data Reachable (ticker_id : ℕ) : MeOrderBook → Type 0 where
  start : Reachable ticker_id (empty_book ticker_id)
  added :
      (client_id client_order_id : ℕ) (side : Side) (price : ℤ) (qty : ℕ) {b b' : MeOrderBook}
      → Reachable ticker_id b
      → OrderIn (resting client_id client_order_id ticker_id side price 0 0 0)
      → Room price b
      → add client_id client_order_id ticker_id side price qty b ≡ some (tt, b')
      → Reachable ticker_id b'
  canceled :
      (client_id order_id : ℕ) {b b' : MeOrderBook}
      → Reachable ticker_id b
      → order_id < me_max_order_ids
      → cancel client_id order_id ticker_id b ≡ some (tt, b')
      → Reachable ticker_id b'

pub some-inj :
    {b c : MeOrderBook}
    → ◌≡◌ {A = Option (Unit {0} × MeOrderBook)} (some (tt, b)) (some (tt, c))
    → b ≡ c
some-inj e = ground arith

-- A book in order and uncrossed, with a market order id above 0.
abbrev Sound : MeOrderBook → Type 0
Sound b = BookOk b × IsUncrossed b × (0 < b.next_market_order_id)

Room-CanTake :
    (client_id client_order_id ticker_id : ℕ) (side : Side) (price : ℤ) (b : MeOrderBook)
    → BookOk b
    → 0 < b.next_market_order_id
    → Room price b
    → CanTake client_id client_order_id ticker_id side price b
Room-CanTake client_id client_order_id ticker_id side price b ok i room = record {
  ok = ok;
  order_room = room.order_room;
  level_room = room.level_room;
  ids = (i, room.last_id);
  same_price = room.same_price;
}

empty_book-Sound : (ticker_id : ℕ) → Sound (empty_book ticker_id)
unfolding new_book
empty_book-Sound ticker_id = (
  Fresh-BookOk (empty_book ticker_id) (empty_book-Fresh ticker_id),
  Fresh-IsUncrossed (empty_book ticker_id) (empty_book-Fresh ticker_id),
  omega arith,
)

Reachable-Sound : (ticker_id : ℕ) {b : MeOrderBook} → Reachable ticker_id b → Sound b
Reachable-Sound ticker_id start = empty_book-Sound ticker_id
Reachable-Sound ticker_id (added client_id client_order_id side price qty {b = c} r fine room e) =
    let (ok, x, i) = Reachable-Sound ticker_id r in
    let t = Room-CanTake client_id client_order_id ticker_id side price c ok i room in
    let (b', e', took) = add-returns client_id client_order_id ticker_id side price qty c fine t in
    subst Sound (some-inj (sym e' ∙ e)) (took.ok, took.uncrossed x, omega (arith, i, took.next_id))
Reachable-Sound ticker_id (canceled client_id order_id {b = c} r h e) =
    let (ok, x, i) = Reachable-Sound ticker_id r in
    let (b', e', gone) = cancel-returns client_id order_id ticker_id c h ok in
    subst Sound (some-inj (sym e' ∙ e)) (gone.ok, gone.uncrossed x, omega (arith, i, gone.next_id))

-- Every book that new orders and cancels lead to from a new one is in order and uncrossed, if each
-- cancel has an order id in range, and each new order has ids and a price in range and a side, and
-- comes to a book with at least two free blocks in each of its pools, a next market order id below
-- 2^64, and no order of another price at the index of its price.
pub Reachable-BookOk :
    (ticker_id : ℕ) {b : MeOrderBook} → Reachable ticker_id b → BookOk b × IsUncrossed b
Reachable-BookOk ticker_id r = let (ok, x, _) = Reachable-Sound ticker_id r in (ok, x)
