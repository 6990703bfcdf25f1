-- ===== src/Exchange/Matcher/Levels.antt =====
-- exchange/matcher/me_order_book.h: the circular list of price levels of one side,
-- `addOrdersAtPrice` and `removeOrdersAtPrice`.
use low_latency_electronic_t.Prelude.{
  ℕ, zero, suc, ℤ, Bool, true, false, Option, none, some, ptr_eq, ◌==◌, ltb_ℤ, if◌then◌else◌,
  update,
}
use low_latency_electronic_t.Common.Types.{Side}
use low_latency_electronic_t.Exchange.Matcher.Book.{
  MeOrdersAtPrice, M, ◌>>=◌, ◌>>◌, pure, fault, gets, modify, deref, level_at, put_level,
  free_level, price_to_index, get_orders_at_price, best, set_best,
}

-- Whether a level of this side and price goes behind one of the price `target`.
unfoldable pub goes_after : Side → ℤ → ℤ → Bool
goes_after Side.sell price target = ltb_ℤ target price
goes_after Side.buy price target = ltb_ℤ price target
goes_after _ price target = false

-- The same comparison the other way: whether it beats the price `target`.
unfoldable pub beats : Side → ℤ → ℤ → Bool
beats Side.buy price target = ltb_ℤ target price
beats Side.sell price target = ltb_ℤ price target
beats _ price target = false

-- The `while` loop of `addOrdersAtPrice`, with fuel: the target and `add_after` at its end.
unfoldable pub walk : (ℕ → MeOrdersAtPrice) → Side → ℤ → ℕ → ℕ → ℕ → Bool → Option (ℕ × Bool)
walk levels side price head zero target after = none
walk levels side price head (suc fuel) target after =
    let further = λ (next : ℕ). walk levels side price head fuel next true in
    let stop = walk levels side price head fuel target false in
    if after
    then (if target == head
        then some (target, after)
        else (if goes_after side price (levels target).price
            then elim (levels target).next_entry [ none ↦ none | some next ↦ further next ]
            else stop))
    else some (target, after)

-- The search for the insertion point: the first two comparisons, then the loop.
unfoldable pub find_place : (ℕ → MeOrdersAtPrice) → Side → ℤ → ℕ → ℕ → Option (ℕ × Bool)
find_place levels side price head fuel =
    if goes_after side price (levels head).price
    then elim (levels head).next_entry [
      | none ↦ none
      | some next ↦
          walk levels side price head fuel next (goes_after side price (levels next).price)
    ]
    else walk levels side price head fuel head false

-- Links the level `new` in behind `target`, at the end of the list if `target` is the head.
unfoldable pub insert_after : ℕ → ℕ → ℕ → M (Unit {0})
insert_after new head target = do
  head_prev ← gets λ b. (level_at b head).prev_entry
  target ← if target == head then deref head_prev else pure target
  put_level new λ l. record l { prev_entry = some target }
  target_next ← gets λ b. (level_at b target).next_entry
  next ← deref target_next
  put_level next λ l. record l { prev_entry = some new }
  put_level new λ l. record l { next_entry = some next }
  put_level target λ l. record l { next_entry = some new }

-- The last statement of `addOrdersAtPrice`: a level that beats the best price becomes the head.
unfoldable pub promote : ℕ → ℕ → ℕ → M (Unit {0})
promote new head target = do
  level ← gets λ b. level_at b new
  best_level ← gets λ b. level_at b head
  if beats level.side level.price best_level.price
      then (do
        put_level target λ l. record l {
          next_entry = if ptr_eq l.next_entry (some head) then some new else l.next_entry;
        }
        modify (set_best level.side (some new)))
      else pure tt

-- Links the level `new` in before `target`.
unfoldable pub insert_before : ℕ → ℕ → ℕ → M (Unit {0})
insert_before new head target = do
  target_prev ← gets λ b. (level_at b target).prev_entry
  put_level new λ l. record l { prev_entry = target_prev }
  put_level new λ l. record l { next_entry = some target }
  prev ← deref target_prev
  put_level prev λ l. record l { next_entry = some new }
  put_level target λ l. record l { prev_entry = some new }
  promote new head target

unfoldable pub add_orders_at_price : ℕ → M (Unit {0})
add_orders_at_price new = do
  level ← gets λ b. level_at b new
  modify λ b. record b {
    price_orders_at_price = update b.price_orders_at_price (price_to_index level.price) (some new);
  }
  head ← gets (best level.side)
  place ← gets λ b. b
  elim head [
    | none ↦ do
      modify (set_best level.side (some new))
      put_level new λ l. record l { prev_entry = some new; next_entry = some new }
    | some head ↦
        elim (find_place (level_at place) level.side level.price head
          place.orders_at_price_pool.size) [
            | none ↦ fault
            | some (target, after) ↦ elim after [
              | true ↦ insert_after new head target
              | false ↦ insert_before new head target
            ]
          ]
  ]

-- Takes the level `p` out of the circular list whose head is `head`.
unfoldable pub unlink_level : Side → Option ℕ → ℕ → M (Unit {0})
unlink_level side head p = do
  level ← gets λ b. level_at b p
  if ptr_eq level.next_entry (some p) then modify (set_best side none) else (do
    prev ← deref level.prev_entry
    put_level prev λ l. record l { next_entry = level.next_entry }
    next ← deref level.next_entry
    put_level next λ l. record l { prev_entry = level.prev_entry }
    if ptr_eq (some p) head then modify (set_best side level.next_entry) else pure tt
    put_level p λ l. record l { prev_entry = none; next_entry = none })

-- Takes an empty level out of the list of its side, out of the price index and back to the pool.
unfoldable pub remove_orders_at_price : Side → ℤ → M (Unit {0})
remove_orders_at_price side price = do
  head ← gets (best side)
  found ← gets (get_orders_at_price price)
  p ← deref found
  unlink_level side head p
  modify λ b. record b {
    price_orders_at_price = update b.price_orders_at_price (price_to_index price) none;
  }
  free_level p
