-- ===== src/Tests/Invariant.antt =====
-- The theorems on the invariant of the matching engine's book at concrete books.
use low_latency_electronic_t.Prelude.{
  ℕ, ◌^◌, ◌<◌, ◌≡◌, ◌⊎◌, refl, sym, subst, true, inl, inr, pos, Option, none, some, [], arith,
}
use low_latency_electronic_t.Common.Types.{Side}
use low_latency_electronic_t.Common.MemPool
use low_latency_electronic_t.Exchange.Matcher.Book.{
  new_book, MeOrderBook, ◌>>=◌, default_order, default_level, order_at,
  generate_new_market_order_id, best, set_best, get_orders_at_price, price_to_index, allocate_level,
  allocate_order, free_level, free_order,
}
use low_latency_electronic_t.Exchange.Matcher.Levels.{
  add_orders_at_price, remove_orders_at_price, unlink_level, insert_after, insert_before, promote,
  find_place, walk, goes_after, beats,
}
use low_latency_electronic_t.Exchange.Matcher.Orders.{
  add_order, append_order, remove_order, unlink_order, get_next_priority,
}
use low_latency_electronic_t.Exchange.Matcher.Match.{
  add, cancel, find_order, check_for_match, match_loop, match_order, settle_passive, no_cross,
  rest_order,
}
use low_latency_electronic_t.Exchange.Matcher.Inv.{in_use}
use low_latency_electronic_t.Exchange.Matcher.Inv.Fill.{BookOk, IsUncrossed, Later}
use low_latency_electronic_t.Exchange.Matcher.Inv.Front.{Ahead}
use low_latency_electronic_t.Exchange.Matcher.Inv.Rest.{OrderIn}
use low_latency_electronic_t.Exchange.Matcher.Inv.Add.{CanTake, resting}
use low_latency_electronic_t.Exchange.Matcher.Inv.Taken.{Took, add-returns}
use low_latency_electronic_t.Exchange.Matcher.Inv.Cancel.{Canceled, cancel-returns}
use low_latency_electronic_t.Exchange.Matcher.Inv.Matching.{
  Uncrossed, check_for_match-returns, match_loop-IsFirst,
}
use low_latency_electronic_t.Exchange.Matcher.Inv.Reach.{
  Fresh-BookOk, Fresh-Room, empty_book-Fresh, start, added, Reachable-BookOk, empty_book, some-inj,
}

-- A new book of eight blocks.
abbrev empty : MeOrderBook
empty = record {
  ticker_id = 0;
  cid_oid_to_order = λ c o. none;
  orders_at_price_pool = MemPool.init 8 default_level;
  order_pool = MemPool.init 8 default_order;
  bids_by_price = none;
  asks_by_price = none;
  price_orders_at_price = λ i. none;
  next_market_order_id = 7;
  sent = [];
}

abbrev book_of : {A : Type 0} → Option (A × MeOrderBook) → MeOrderBook
book_of none = empty
book_of (some (_, b)) = b

-- A sell rests at 100, then another at 105.
abbrev first_ask : MeOrderBook
first_ask = book_of (add 1 1 0 Side.sell (pos 100) 10 empty)

abbrev two_asks : MeOrderBook
two_asks = book_of (add 1 2 0 Side.sell (pos 105) 10 first_ask)

fine :
    (t o : ℕ) (s : Side) (n : ℕ)
    → o < 1048576
    → (s ≡ Side.buy) ⊎ (s ≡ Side.sell)
    → n < 2 ^ 63
    → OrderIn (resting 1 o t s (pos n) 0 0 0)
fine t o s n h k i = record {
  ids = record { client = omega arith; client_order = h };
  side = k;
  price = (i, omega arith);
}

empty-BookOk : BookOk empty
unfolding cancel find_order add generate_new_market_order_id check_for_match match_loop match_order
    settle_passive no_cross rest_order add_order append_order remove_order unlink_order
    get_next_priority add_orders_at_price remove_orders_at_price unlink_level insert_after
    insert_before promote find_place walk goes_after beats best set_best get_orders_at_price
    price_to_index allocate_level allocate_order free_level free_order default_order default_level
    MemPool.init MemPool.allocate MemPool.deallocate MemPool.scan
empty-BookOk = Fresh-BookOk empty (record {
  order_pool = record { in_range = omega arith; free = refl };
  level_pool = record { in_range = omega arith; free = refl };
  orders = λ p. refl;
  levels = λ l. refl;
  bids = refl;
  asks = refl;
  price_index = λ i. refl;
  id_index = λ c o. refl;
})

empty-CanTake : CanTake 1 1 0 Side.sell (pos 100) empty
unfolding cancel find_order add generate_new_market_order_id check_for_match match_loop match_order
    settle_passive no_cross rest_order add_order append_order remove_order unlink_order
    get_next_priority add_orders_at_price remove_orders_at_price unlink_level insert_after
    insert_before promote find_place walk goes_after beats best set_best get_orders_at_price
    price_to_index allocate_level allocate_order free_level free_order default_order default_level
    MemPool.init MemPool.allocate MemPool.deallocate MemPool.scan
empty-CanTake = record {
  ok = empty-BookOk;
  order_room = omega arith;
  level_room = omega arith;
  ids = (omega arith, omega arith);
  same_price = λ q h. absurd (ground arith);
}

first_ask-BookOk : BookOk first_ask
unfolding cancel find_order add generate_new_market_order_id check_for_match match_loop match_order
    settle_passive no_cross rest_order add_order append_order remove_order unlink_order
    get_next_priority add_orders_at_price remove_orders_at_price unlink_level insert_after
    insert_before promote find_place walk goes_after beats best set_best get_orders_at_price
    price_to_index allocate_level allocate_order free_level free_order default_order default_level
    MemPool.init MemPool.allocate MemPool.deallocate MemPool.scan
first_ask-BookOk =
    let (b, e, took) =
      add-returns 1 1 0 Side.sell (pos 100) 10 empty
        (fine 0 1 Side.sell 100 (omega arith) (inr refl) (omega arith)) empty-CanTake in
    subst BookOk (some-inj (sym e)) took.ok

first_ask-CanTake : CanTake 1 2 0 Side.sell (pos 105) first_ask
unfolding cancel find_order add generate_new_market_order_id check_for_match match_loop match_order
    settle_passive no_cross rest_order add_order append_order remove_order unlink_order
    get_next_priority add_orders_at_price remove_orders_at_price unlink_level insert_after
    insert_before promote find_place walk goes_after beats best set_best get_orders_at_price
    price_to_index allocate_level allocate_order free_level free_order default_order default_level
    MemPool.init MemPool.allocate MemPool.deallocate MemPool.scan
first_ask-CanTake = record {
  ok = first_ask-BookOk;
  order_room = omega arith;
  level_room = omega arith;
  ids = (omega arith, omega arith);
  same_price = λ q h i. absurd (ground arith);
}

two_asks-BookOk : BookOk two_asks
unfolding cancel find_order add generate_new_market_order_id check_for_match match_loop match_order
    settle_passive no_cross rest_order add_order append_order remove_order unlink_order
    get_next_priority add_orders_at_price remove_orders_at_price unlink_level insert_after
    insert_before promote find_place walk goes_after beats best set_best get_orders_at_price
    price_to_index allocate_level allocate_order free_level free_order default_order default_level
    MemPool.init MemPool.allocate MemPool.deallocate MemPool.scan
two_asks-BookOk =
    let (b, e, took) =
      add-returns 1 2 0 Side.sell (pos 105) 10 first_ask
        (fine 0 2 Side.sell 105 (omega arith) (inr refl) (omega arith)) first_ask-CanTake in
    subst BookOk (some-inj (sym e)) took.ok

two_asks-CanTake : CanTake 1 3 0 Side.buy (pos 103) two_asks
unfolding cancel find_order add generate_new_market_order_id check_for_match match_loop match_order
    settle_passive no_cross rest_order add_order append_order remove_order unlink_order
    get_next_priority add_orders_at_price remove_orders_at_price unlink_level insert_after
    insert_before promote find_place walk goes_after beats best set_best get_orders_at_price
    price_to_index allocate_level allocate_order free_level free_order default_order default_level
    MemPool.init MemPool.allocate MemPool.deallocate MemPool.scan
two_asks-CanTake = record {
  ok = two_asks-BookOk;
  order_room = omega arith;
  level_room = omega arith;
  ids = (omega arith, omega arith);
  same_price = λ q h i. absurd (ground arith);
}

add-returns_example :
    (b' : MeOrderBook) × (add 1 3 0 Side.buy (pos 103) 12 two_asks ≡ some (tt, b'))
    × Took 1 3 0 Side.buy (pos 103) 12 two_asks b'
add-returns_example =
    add-returns 1 3 0 Side.buy (pos 103) 12 two_asks
      (fine 0 3 Side.buy 103 (omega arith) (inl refl) (omega arith)) two_asks-CanTake

check_for_match-returns_example :
    (left : ℕ) × (b' : MeOrderBook) × (check_for_match 2 1 0 Side.buy (pos 103) 12 9 two_asks
      ≡ some (left, b'))
    × BookOk b'
    × Later two_asks b'
    × ((left ≡ 0) ⊎ Uncrossed Side.buy (pos 103) b')
check_for_match-returns_example =
    check_for_match-returns 2 1 0 Side.buy (pos 103) 12 9 two_asks (inl refl) two_asks-BookOk

match_loop-IsFirst_example :
    (p : ℕ) × (match_loop 5 2 1 0 Side.buy (pos 106) 9 12 two_asks
      ≡ (match_order 0 2 Side.buy 1 9 p 12 >>= match_loop 4 2 1 0 Side.buy (pos 106) 9) two_asks)
    × (in_use two_asks.order_pool p ≡ true)
    × ((order_at two_asks p).side ≡ Side.sell)
    × ((x : ℕ)
        → in_use two_asks.order_pool x ≡ true
        → (order_at two_asks x).side ≡ Side.sell
        → (x ≡ p) ⊎ Ahead Side.sell (order_at two_asks p) (order_at two_asks x))
unfolding cancel find_order add generate_new_market_order_id check_for_match match_loop match_order
    settle_passive no_cross rest_order add_order append_order remove_order unlink_order
    get_next_priority add_orders_at_price remove_orders_at_price unlink_level insert_after
    insert_before promote find_place walk goes_after beats best set_best get_orders_at_price
    price_to_index allocate_level allocate_order free_level free_order default_order default_level
    MemPool.init MemPool.allocate MemPool.deallocate MemPool.scan
match_loop-IsFirst_example =
    match_loop-IsFirst 2 1 0 Side.buy (pos 106) 9 4 12 1 two_asks two_asks-BookOk.inv (omega arith)
      refl refl refl

cancel-returns_example :
    (b' : MeOrderBook) × (cancel 1 2 0 two_asks ≡ some (tt, b')) × Canceled 1 2 two_asks b'
cancel-returns_example = cancel-returns 1 2 0 two_asks (omega arith) two_asks-BookOk

-- The first order on a new book.
abbrev opened_book : MeOrderBook
opened_book = book_of (add 1 1 3 Side.sell (pos 100) 10 (empty_book 3))

Reachable-BookOk_example : BookOk opened_book × IsUncrossed opened_book
unfolding new_book cancel find_order add generate_new_market_order_id check_for_match match_loop
    match_order settle_passive no_cross rest_order add_order append_order remove_order unlink_order
    get_next_priority add_orders_at_price remove_orders_at_price unlink_level insert_after
    insert_before promote find_place walk goes_after beats best set_best get_orders_at_price
    price_to_index allocate_level allocate_order free_level free_order default_order default_level
    MemPool.init MemPool.allocate MemPool.deallocate MemPool.scan
Reachable-BookOk_example = Reachable-BookOk 3 (
    added 1 1 Side.sell (pos 100) 10 start
      (fine 3 1 Side.sell 100 (omega arith) (inr refl) (omega arith))
      (Fresh-Room (pos 100) (empty_book 3) (empty_book-Fresh 3) (omega arith) (omega arith)
        (omega arith))
      refl)
