-- ===== src/Exchange/Matcher/Inv/Link.antt =====
-- `addOrdersAtPrice` of exchange/matcher/me_order_book.h returns, with the new level in the list of
-- its side.
use low_latency_electronic_t.Prelude.{
  ℕ, ◌≡◌, ◌⊎◌, ◌∙◌, refl, inl, inr, Bool, true, Option, none, some, ptr_eq, ◌==◌, if◌then◌else◌,
  arith, Bool-cases,
}
use low_latency_electronic_t.Common.Types.{Side, side_to_index}
use low_latency_electronic_t.Common.MemPool.{MemPool}
use low_latency_electronic_t.Common.MemPool
use low_latency_electronic_t.Common.MemPool.Laws
use low_latency_electronic_t.Common.Rings.{Rings, IsOk, found, insert}
use low_latency_electronic_t.Common.Rings.Insert.{Fits, found-IsOk, insert-IsOk}
use low_latency_electronic_t.Exchange.Matcher.Book.{
  poke, MeOrdersAtPrice, MeOrderBook, level_at, price_to_index,
}
use low_latency_electronic_t.Exchange.Matcher.Inv.Drop.{best_of}
use low_latency_electronic_t.Exchange.Matcher.Inv.{
  unwrap, in_use, IsPrice, price_rank, levels_of, Inv,
}

-- The level `v` is in the block `m` of the pool `r`.
module _ (b : MeOrderBook) (r : MemPool MeOrdersAtPrice) (v : MeOrdersAtPrice) (m : ℕ) where
  -- The lists of the levels with the new one.
  pub record Joins (hd : Option ℕ) (n : Rings) : Type 0 where
    pub ok : IsOk n
    pub live : (x : ℕ) → n.live x ≡ (if x == m then true else in_use b.orders_at_price_pool x)
    pub group :
        (x : ℕ) → n.group x ≡ (if x == m then side_to_index v.side else (levels_of b).group x)
    pub rank :
        (x : ℕ) → n.rank x ≡ (if x == m then price_rank v.side v.price else (levels_of b).rank x)
    pub head : (g : ℕ) → n.head g ≡ (if g == side_to_index v.side then hd else (levels_of b).head g)

  -- The pool `p` is `r` with the links of the lists `n`.
  pub record Linked (n : Rings) (p : MemPool MeOrdersAtPrice) : Type 0 where
    pub size : p.size ≡ r.size
    pub next_free_index : p.next_free_index ≡ r.next_free_index
    pub free : (x : ℕ) → (p.store x).is_free ≡ (r.store x).is_free
    pub side : (x : ℕ) → (p.store x).object.side ≡ (r.store x).object.side
    pub price : (x : ℕ) → (p.store x).object.price ≡ (r.store x).object.price
    pub first : (x : ℕ) → (p.store x).object.first_me_order ≡ (r.store x).object.first_me_order
    pub next : (x : ℕ) → in_use p x ≡ true → (p.store x).object.next_entry ≡ some (n.nx x)
    pub prev : (x : ℕ) → in_use p x ≡ true → (p.store x).object.prev_entry ≡ some (n.pv x)

  pub record NewLevel : Type 0 where
    pub inv : Inv b
    pub side : (v.side ≡ Side.buy) ⊎ (v.side ≡ Side.sell)
    pub price_ok : IsPrice v.price
    pub allocated : MemPool.Laws.Allocated b.orders_at_price_pool v m r
    pub fresh : b.price_orders_at_price (price_to_index v.price) ≡ none

  -- The first level of its side.
  abbrev pub alone1 : MemPool MeOrdersAtPrice
  alone1 = poke r m (record (r.store m).object { prev_entry = some m; next_entry = some m })

  -- The level goes behind the last level `a`, before the head `h`.
  module _ (a h : ℕ) where
    abbrev after1 : MemPool MeOrdersAtPrice
    after1 = poke r m (record (r.store m).object { prev_entry = some a })

    abbrev after2 : MemPool MeOrdersAtPrice
    after2 = poke after1 h (record (after1.store h).object { prev_entry = some m })

    abbrev after3 : MemPool MeOrdersAtPrice
    after3 = poke after2 m (record (after2.store m).object { next_entry = some h })

    abbrev pub after4 : MemPool MeOrdersAtPrice
    after4 = poke after3 a (record (after3.store a).object { next_entry = some m })

  -- The level goes between the levels `a` and `t`.
  module _ (a t : ℕ) where
    abbrev before1 : MemPool MeOrdersAtPrice
    before1 = poke r m (record (r.store m).object { prev_entry = some a })

    abbrev before2 : MemPool MeOrdersAtPrice
    before2 = poke before1 m (record (before1.store m).object { next_entry = some t })

    abbrev before3 : MemPool MeOrdersAtPrice
    before3 = poke before2 a (record (before2.store a).object { next_entry = some m })

    abbrev pub before4 : MemPool MeOrdersAtPrice
    before4 = poke before3 t (record (before3.store t).object { prev_entry = some m })

    -- The write of the last statement, when `t` is the head.
    abbrev pub before5 : MemPool MeOrdersAtPrice
    before5 = poke before4 t (record (before4.store t).object {
      next_entry =
          if ptr_eq (before4.store t).object.next_entry (some t)
          then some m
          else (before4.store t).object.next_entry;
    })

  module _ (w : NewLevel) where
    open w use {inv, side, price_ok, allocated, fresh}

    -- The head of the side, in the terms of the lists.
    pub head-best_of : (levels_of b).head (side_to_index v.side) ≡ best_of v.side b
    head-best_of = ground (arith, side)

    pub alone-Joins :
        best_of v.side b ≡ none
        → Joins (some m) (found m (side_to_index v.side) (price_rank v.side v.price) (levels_of b))
    unfolding found
    alone-Joins e = record {
      ok =
          found-IsOk (levels_of b) m (side_to_index v.side) (price_rank v.side v.price) inv.levels
            (ground (arith, allocated.was_free)) (head-best_of ∙ e);
      live = λ x. refl;
      group = λ x. refl;
      rank = λ x. refl;
      head = λ g. refl;
    }

    pub alone-Linked :
        Linked (found m (side_to_index v.side) (price_rank v.side v.price) (levels_of b)) alone1
    unfolding found
    alone-Linked = record {
      size = refl;
      next_free_index = refl;
      free = λ x. ground arith;
      side = λ x. ground arith;
      price = λ x. ground arith;
      first = λ x. ground arith;
      next = λ x u. ground (arith, allocated.others x, inv.level x);
      prev = λ x u. ground (arith, allocated.others x, inv.level x);
    }

    -- The level `a` of the side is before the place of the new one, and `t` behind it.
    module _ (first : Bool) (a t : ℕ) (u : in_use b.orders_at_price_pool a ≡ true)
        (k : (level_at b a).side ≡ v.side) (nx : unwrap (level_at b a).next_entry ≡ t) where
      pub insert-Joins :
          Fits first a (price_rank v.side v.price) (levels_of b)
          → Joins
              (if first then some m else best_of v.side b)
              (insert first m a (price_rank v.side v.price) (levels_of b))
      unfolding insert
      insert-Joins f = record {
        ok =
            insert-IsOk first (levels_of b) m a (price_rank v.side v.price) inv.levels
              (ground (arith, allocated.was_free)) u f;
        live = λ x. refl;
        group = λ x. ground (arith, k);
        rank = λ x. refl;
        head = λ g. elim (Bool-cases first) [
          | inl e ↦ ground (arith, k)
          | inr e ↦ ground (arith, k, side)
        ];
      }

      abbrev pub Links : (p : MemPool MeOrdersAtPrice) → Type 0
      Links p = Linked (insert first m a (price_rank v.side v.price) (levels_of b)) p

      ends : (in_use b.orders_at_price_pool t ≡ true) × (unwrap (level_at b t).prev_entry ≡ a)
      ends = ground (arith, nx, inv.levels.next a u)

      pub after-Linked : Links (after4 a t)
      unfolding insert
      after-Linked = record {
        size = refl;
        next_free_index = refl;
        free = λ x. ground arith;
        side = λ x. ground arith;
        price = λ x. ground arith;
        first = λ x. ground arith;
        next = λ x c. ground (arith, allocated.others x, inv.level x, nx, allocated.was_free);
        prev = λ x c. ground (arith, allocated.others x, inv.level x, nx, allocated.was_free, ends);
      }

      pub before-Linked : Links (before4 a t)
      unfolding insert
      before-Linked = record {
        size = refl;
        next_free_index = refl;
        free = λ x. ground arith;
        side = λ x. ground arith;
        price = λ x. ground arith;
        first = λ x. ground arith;
        next = λ x c. ground (arith, allocated.others x, inv.level x, nx, allocated.was_free, ends);
        prev = λ x c. ground (arith, allocated.others x, inv.level x, nx, allocated.was_free, ends);
      }

      pub front-Linked : Links (before5 a t)
      unfolding insert
      front-Linked = record {
        size = refl;
        next_free_index = refl;
        free = λ x. ground arith;
        side = λ x. ground arith;
        price = λ x. ground arith;
        first = λ x. ground arith;
        next = λ x c.
            ground (
              arith,
              before-Linked.next x,
              allocated.others t,
              ends,
              inv.level t,
              inv.levels.next t,
            );
        prev = λ x c. ground (arith, before-Linked.prev x);
      }
