-- ===== src/Exchange/Matcher/Book.antt =====
-- exchange/matcher/me_order.h and the state of exchange/matcher/me_order_book.h. A pointer is
-- `none` for `nullptr` or the index of a block in the pool that owns the object. Every function
-- of the book is an `M`: it takes the book and gives its result and the book after it. `none` is
-- the end of the process (a failed `ASSERT`, an `at` out of range in a `noexcept` function) or a
-- read through `nullptr`.
use low_latency_electronic_t.Prelude.{
  ℕ, ◌+◌, ◌%◌, ℤ, Option, none, some, List, [], ◌∷◌, ◌++◌, ltb, true, false, update, to_u64,
}
use low_latency_electronic_t.Common.Types.{
  Side, me_max_price_levels, me_max_order_ids, ticker_id_invalid, client_id_invalid,
  order_id_invalid, price_invalid, qty_invalid, priority_invalid,
}
use low_latency_electronic_t.Common.MemPool.{MemPool}
use low_latency_electronic_t.Common.MemPool
use low_latency_electronic_t.Exchange.Messages.{MeClientResponse, MeMarketUpdate}

pub record MeOrder : Type 0 where
  pub ticker_id : ℕ
  pub client_id : ℕ
  pub client_order_id : ℕ
  pub market_order_id : ℕ
  pub side : Side
  pub price : ℤ
  pub qty : ℕ
  pub priority : ℕ
  pub prev_order : Option ℕ
  pub next_order : Option ℕ

pub record MeOrdersAtPrice : Type 0 where
  pub side : Side
  pub price : ℤ
  pub first_me_order : Option ℕ
  pub prev_entry : Option ℕ
  pub next_entry : Option ℕ

-- What the book hands to the matching engine, in order.
pub data Sent : Type 0 where
  response : MeClientResponse → Sent
  market : MeMarketUpdate → Sent

pub record MeOrderBook : Type 0 where
  pub ticker_id : ℕ
  pub cid_oid_to_order : ℕ → ℕ → Option ℕ
  pub orders_at_price_pool : MemPool MeOrdersAtPrice
  pub order_pool : MemPool MeOrder
  pub bids_by_price : Option ℕ
  pub asks_by_price : Option ℕ
  pub price_orders_at_price : ℕ → Option ℕ
  pub next_market_order_id : ℕ
  pub sent : List Sent

abbrev pub M : Type 0 → Type 0
M A = MeOrderBook → Option (A × MeOrderBook)

infixl 5 ◌>>=◌ ◌>>◌
abbrev pub ◌>>=◌ : {A B : Type 0} → M A → (A → M B) → M B
◌>>=◌ m f b = elim (m b) [ none ↦ none | some (a, b') ↦ f a b' ]

abbrev pub ◌>>◌ : {B : Type 0} → M (Unit {0}) → M B → M B
m >> k = m >>= λ _. k

abbrev pub pure : {A : Type 0} → A → M A
pure a b = some (a, b)

abbrev pub fault : {A : Type 0} → M A
fault b = none

-- A field of the book.
abbrev pub gets : {A : Type 0} → (MeOrderBook → A) → M A
gets f b = some (f b, b)

abbrev pub modify : (MeOrderBook → MeOrderBook) → M (Unit {0})
modify f b = some (tt, f b)

-- Reads through a pointer that may be null.
abbrev pub deref : Option ℕ → M ℕ
deref none b = none
deref (some p) b = some (p, b)

abbrev pub order_at : MeOrderBook → ℕ → MeOrder
order_at b p = (b.order_pool.store p).object

abbrev pub level_at : MeOrderBook → ℕ → MeOrdersAtPrice
level_at b p = (b.orders_at_price_pool.store p).object

-- Writes to an object in its block.
abbrev pub poke {ℓ} : {T : Type ℓ} → MemPool T → ℕ → T → MemPool T
poke pool p obj = record pool {
  store = update pool.store p (record { object = obj; is_free = (pool.store p).is_free });
}

abbrev pub put_order : ℕ → (MeOrder → MeOrder) → M (Unit {0})
put_order p f = modify λ b. record b { order_pool = poke b.order_pool p (f (order_at b p)) }

abbrev pub put_level : ℕ → (MeOrdersAtPrice → MeOrdersAtPrice) → M (Unit {0})
put_level p f =
    modify λ b. record b { orders_at_price_pool = poke b.orders_at_price_pool p (f (level_at b p)) }

abbrev pub send_client_response : MeClientResponse → M (Unit {0})
send_client_response r = modify λ b. record b { sent = b.sent ++ response r ∷ [] }

abbrev pub send_market_update : MeMarketUpdate → M (Unit {0})
send_market_update u = modify λ b. record b { sent = b.sent ++ market u ∷ [] }

-- `std::array::at`: the index is checked.
abbrev pub check_index : ℕ → ℕ → M (Unit {0})
check_index i n b = elim (ltb i n) [ true ↦ some (tt, b) | false ↦ none ]

-- `generateNewMarketOrderId`.
unfoldable pub generate_new_market_order_id : M ℕ
generate_new_market_order_id b =
    some (b.next_market_order_id, record b { next_market_order_id = b.next_market_order_id + 1 })

-- `allocate` and `deallocate` of the two pools.
unfoldable pub allocate_level : MeOrdersAtPrice → M ℕ
allocate_level l b = elim (MemPool.allocate b.orders_at_price_pool l) [
  | none ↦ none
  | some (p, pool) ↦ some (p, record b { orders_at_price_pool = pool })
]

unfoldable pub allocate_order : MeOrder → M ℕ
allocate_order o b = elim (MemPool.allocate b.order_pool o) [
  | none ↦ none
  | some (p, pool) ↦ some (p, record b { order_pool = pool })
]

unfoldable pub free_level : ℕ → M (Unit {0})
free_level p b = elim (MemPool.deallocate b.orders_at_price_pool p) [
  | none ↦ none
  | some pool ↦ some (tt, record b { orders_at_price_pool = pool })
]

unfoldable pub free_order : ℕ → M (Unit {0})
free_order p b = elim (MemPool.deallocate b.order_pool p) [
  | none ↦ none
  | some pool ↦ some (tt, record b { order_pool = pool })
]

-- `price % ME_MAX_PRICE_LEVELS`: the price is converted to `size_t` first.
unfoldable pub price_to_index : ℤ → ℕ
price_to_index price = to_u64 price % me_max_price_levels

unfoldable pub get_orders_at_price : ℤ → MeOrderBook → Option ℕ
unfolding price_to_index
get_orders_at_price price b = b.price_orders_at_price (price_to_index price)

-- `side == Side::BUY ? bids_by_price_ : asks_by_price_`, read and written.
unfoldable pub best : Side → MeOrderBook → Option ℕ
best Side.buy b = b.bids_by_price
best _ b = b.asks_by_price

unfoldable pub set_best : Side → Option ℕ → MeOrderBook → MeOrderBook
set_best Side.buy p b = record b { bids_by_price = p }
set_best _ p b = record b { asks_by_price = p }

-- The constructor: pools of free blocks with default objects, no level and no order.
unfoldable pub default_order : MeOrder
default_order = record {
  ticker_id = ticker_id_invalid;
  client_id = client_id_invalid;
  client_order_id = order_id_invalid;
  market_order_id = order_id_invalid;
  side = Side.invalid;
  price = price_invalid;
  qty = qty_invalid;
  priority = priority_invalid;
  prev_order = none;
  next_order = none;
}

unfoldable pub default_level : MeOrdersAtPrice
default_level = record {
  side = Side.invalid;
  price = price_invalid;
  first_me_order = none;
  prev_entry = none;
  next_entry = none;
}

-- The two index arrays get no initial value in the constructor: they are arguments here.
unfoldable pub new_book : ℕ → (ℕ → ℕ → Option ℕ) → (ℕ → Option ℕ) → MeOrderBook
unfolding MemPool.init default_order default_level
new_book ticker_id cid_oid price_orders = record {
  ticker_id = ticker_id;
  cid_oid_to_order = cid_oid;
  orders_at_price_pool = MemPool.init me_max_price_levels default_level;
  order_pool = MemPool.init me_max_order_ids default_order;
  bids_by_price = none;
  asks_by_price = none;
  price_orders_at_price = price_orders;
  next_market_order_id = 1;
  sent = [];
}
