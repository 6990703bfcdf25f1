-- ===== src/Trading/MarketBook/Book.antt =====
-- trading/strategy/market_order.h and the state of trading/strategy/market_order_book.h. Pointers
-- and the monad are as in the exchange's book: a pointer is `none` or the index of a block, and
-- `none` as an outcome is the end of the process or a read through `nullptr`.
use low_latency_electronic_t.Prelude.{
  ℕ, ◌%◌, ℤ, Option, none, some, List, [], ◌∷◌, ◌++◌, ltb, true, false, update, to_u64,
}
use low_latency_electronic_t.Common.Types.{Side, me_max_price_levels}
use low_latency_electronic_t.Common.MemPool.{MemPool}
use low_latency_electronic_t.Common.MemPool
use low_latency_electronic_t.Exchange.Messages.{MeMarketUpdate}

pub record MarketOrder : Type 0 where
  pub order_id : ℕ
  pub side : Side
  pub price : ℤ
  pub qty : ℕ
  pub priority : ℕ
  pub prev_order : Option ℕ
  pub next_order : Option ℕ

pub record MarketOrdersAtPrice : Type 0 where
  pub side : Side
  pub price : ℤ
  pub first_mkt_order : Option ℕ
  pub prev_entry : Option ℕ
  pub next_entry : Option ℕ

-- The best prices and the quantities there.
pub record Bbo : Type 0 where
  pub bid_price : ℤ
  pub ask_price : ℤ
  pub bid_qty : ℕ
  pub ask_qty : ℕ

-- What the book tells the trade engine, in order.
pub data Notice : Type 0 where
  on_trade_update : MeMarketUpdate → Notice
  on_order_book_update : ℕ → ℤ → Side → Notice

pub record MarketOrderBook : Type 0 where
  pub ticker_id : ℕ
  pub oid_to_order : ℕ → Option ℕ
  pub orders_at_price_pool : MemPool MarketOrdersAtPrice
  pub bids_by_price : Option ℕ
  pub asks_by_price : Option ℕ
  pub price_orders_at_price : ℕ → Option ℕ
  pub order_pool : MemPool MarketOrder
  pub bbo : Bbo
  pub notices : List Notice

abbrev pub M : Type 0 → Type 0
M A = MarketOrderBook → Option (A × MarketOrderBook)

infixl 5 ◌>>=◌ ◌>>◌
abbrev pub ◌>>=◌ : {A B : Type 0} → M A → (A → M B) → M B
◌>>=◌ m f b = elim (m b) [ none ↦ none | some (a, b') ↦ f a b' ]

abbrev pub ◌>>◌ : {B : Type 0} → M (Unit {0}) → M B → M B
m >> k = m >>= λ _. k

abbrev pub pure : {A : Type 0} → A → M A
pure a b = some (a, b)

abbrev pub fault : {A : Type 0} → M A
fault b = none

abbrev pub gets : {A : Type 0} → (MarketOrderBook → A) → M A
gets f b = some (f b, b)

abbrev pub modify : (MarketOrderBook → MarketOrderBook) → M (Unit {0})
modify f b = some (tt, f b)

abbrev pub deref : Option ℕ → M ℕ
deref none b = none
deref (some p) b = some (p, b)

abbrev pub order_at : MarketOrderBook → ℕ → MarketOrder
order_at b p = (b.order_pool.store p).object

abbrev pub level_at : MarketOrderBook → ℕ → MarketOrdersAtPrice
level_at b p = (b.orders_at_price_pool.store p).object

abbrev pub poke {ℓ} : {T : Type ℓ} → MemPool T → ℕ → T → MemPool T
poke pool p obj = record pool {
  store = update pool.store p (record { object = obj; is_free = (pool.store p).is_free });
}

abbrev pub put_order : ℕ → (MarketOrder → MarketOrder) → M (Unit {0})
put_order p f = modify λ b. record b { order_pool = poke b.order_pool p (f (order_at b p)) }

abbrev pub put_level : ℕ → (MarketOrdersAtPrice → MarketOrdersAtPrice) → M (Unit {0})
put_level p f =
    modify λ b. record b { orders_at_price_pool = poke b.orders_at_price_pool p (f (level_at b p)) }

abbrev pub check_index : ℕ → ℕ → M (Unit {0})
check_index i n b = elim (ltb i n) [ true ↦ some (tt, b) | false ↦ none ]

abbrev pub notify : Notice → M (Unit {0})
notify n = modify λ b. record b { notices = b.notices ++ n ∷ [] }

-- `allocate` and `deallocate` of the two pools.
unfoldable pub allocate_level : MarketOrdersAtPrice → M ℕ
allocate_level l b = elim (MemPool.allocate b.orders_at_price_pool l) [
  | none ↦ none
  | some (p, pool) ↦ some (p, record b { orders_at_price_pool = pool })
]

unfoldable pub allocate_order : MarketOrder → M ℕ
allocate_order o b = elim (MemPool.allocate b.order_pool o) [
  | none ↦ none
  | some (p, pool) ↦ some (p, record b { order_pool = pool })
]

unfoldable pub free_level : ℕ → M (Unit {0})
free_level p b = elim (MemPool.deallocate b.orders_at_price_pool p) [
  | none ↦ none
  | some pool ↦ some (tt, record b { orders_at_price_pool = pool })
]

unfoldable pub free_order : ℕ → M (Unit {0})
free_order p b = elim (MemPool.deallocate b.order_pool p) [
  | none ↦ none
  | some pool ↦ some (tt, record b { order_pool = pool })
]

-- `price % ME_MAX_PRICE_LEVELS`: the price is converted to `size_t` first.
unfoldable pub price_to_index : ℤ → ℕ
price_to_index price = to_u64 price % me_max_price_levels

unfoldable pub get_orders_at_price : ℤ → MarketOrderBook → Option ℕ
unfolding price_to_index
get_orders_at_price price b = b.price_orders_at_price (price_to_index price)

-- `side == Side::BUY ? bids_by_price_ : asks_by_price_`, read and written.
unfoldable pub best : Side → MarketOrderBook → Option ℕ
best Side.buy b = b.bids_by_price
best _ b = b.asks_by_price

unfoldable pub set_best : Side → Option ℕ → MarketOrderBook → MarketOrderBook
set_best Side.buy p b = record b { bids_by_price = p }
set_best _ p b = record b { asks_by_price = p }
