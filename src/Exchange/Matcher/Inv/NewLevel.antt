-- ===== src/Exchange/Matcher/Inv/NewLevel.antt =====
-- `addOrdersAtPrice` of exchange/matcher/me_order_book.h returns with the new level in its place in
-- the list of its side.
use low_latency_electronic_t.Prelude.{
  ℕ, ◌≡◌, ◌⊎◌, ◌∙◌, refl, ap, inl, inr, Bool, true, false, Option, none, some, if◌then◌else◌, arith,
  Option-cases, ltb, ℤ,
}
use low_latency_electronic_t.Common.Types.{Side, side_to_index}
use low_latency_electronic_t.Common.MemPool.{MemPool}
use low_latency_electronic_t.Common.Rings.{Rings, found, insert}
use low_latency_electronic_t.Common.Rings.Insert.{Fits}
use low_latency_electronic_t.Common.Rings.Reach.{head-least}
use low_latency_electronic_t.Exchange.Matcher.Book.{
  MeOrder, MeOrdersAtPrice, MeOrderBook, level_at, best,
}
use low_latency_electronic_t.Exchange.Matcher.Levels.{
  beats, insert_after, insert_before, add_orders_at_price, find_place,
}
use low_latency_electronic_t.Exchange.Matcher.Inv.Drop.{best_of}
use low_latency_electronic_t.Exchange.Matcher.Inv.Walk.{Search, Place, find_place-Place}
use low_latency_electronic_t.Exchange.Matcher.Inv.Link.{
  Joins, Linked, NewLevel, alone1, after4, before4, before5, alone-Joins, alone-Linked,
  insert-Joins, after-Linked, before-Linked, front-Linked, head-best_of,
}
use low_latency_electronic_t.Exchange.Matcher.Inv.Enter.{
  entered, start, kept-entered, set-entered, insert_after_lem, insert_before_lem, insert_front_lem,
}
use low_latency_electronic_t.Exchange.Matcher.Inv.{unwrap, in_use, IsPrice, price_rank, levels_of}

beats-rank :
    (s : Side) (a x : ℤ)
    → (s ≡ Side.buy) ⊎ (s ≡ Side.sell)
    → IsPrice a
    → IsPrice x
    → beats s a x ≡ ltb (price_rank s a) (price_rank s x)
unfolding beats
beats-rank Side.buy a x h i j = ground arith
beats-rank Side.sell a x h i j = ground arith
beats-rank Side.invalid a x h i j = absurd (ground arith)
beats-rank Side.max a x h i j = absurd (ground arith)

module _ (b : MeOrderBook) (q : MemPool MeOrder) (r : MemPool MeOrdersAtPrice) (v : MeOrdersAtPrice)
    (m : ℕ) (w : NewLevel b r v m) where
  open w use {inv, side, price_ok, allocated, fresh}

  -- The book that `addOrdersAtPrice` gets.
  abbrev pub given : MeOrderBook
  given = record b { order_pool = q; orders_at_price_pool = r }

  held : (r.store m).object ≡ v
  held = ground (arith, allocated.written)

  abbrev pub Enters : Type 0
  Enters =
      (p : MemPool MeOrdersAtPrice) × (hd : Option ℕ) × (n : Rings) × (add_orders_at_price m given
        ≡ some (tt, entered b q r v m p hd))
      × Joins b r v m hd n
      × Linked b r v m n p

  best-start : (s : Side) → best s (start b q r v m) ≡ best_of s b
  unfolding best
  best-start Side.buy = refl
  best-start Side.sell = refl
  best-start Side.invalid = refl
  best-start Side.max = refl

  add-none :
      best_of v.side b ≡ none
      → add_orders_at_price m given ≡ some (tt, entered b q r v m (alone1 b r v m) (some m))
  unfolding add_orders_at_price
  add-none e =
      let eh : best v.side (start b q r v m) ≡ none = best-start v.side ∙ e in
      ground (arith, held, eh, set-entered b q r v m r (some m))

  add-some :
      (h t : ℕ) (after : Bool)
      → best_of v.side b ≡ some h
      → find_place (level_at (start b q r v m)) v.side v.price h b.orders_at_price_pool.size
        ≡ some (t, after)
      → add_orders_at_price m given
        ≡ (if after then insert_after m h t else insert_before m h t) (start b q r v m)
  unfolding add_orders_at_price
  add-some h t after e f =
      let eh : best v.side (start b q r v m) ≡ some h = best-start v.side ∙ e in
      ground (arith, held, eh, f, allocated.same_size)

  search :
      (h : ℕ) → best_of v.side b ≡ some h → Search b v.side v.price h (level_at (start b q r v m))
  search h e = record {
    inv = inv;
    side = side;
    price_ok = price_ok;
    head = head-best_of b r v m w ∙ e;
    same = λ x u. ground (arith, allocated.others x, allocated.was_free);
    fresh = λ x l c. ground (arith, (inv.level x l.0).indexed, fresh, c);
  }

  -- The level `a` stands before the place, and `t` behind it.
  module _ (a t : ℕ) (u : in_use b.orders_at_price_pool a ≡ true) (k : (level_at b a).side ≡ v.side)
      (nx : unwrap (level_at b a).next_entry ≡ t) where
    abbrev FoundAt : ℕ → Bool → Type 0
    FoundAt h after =
        find_place (level_at (start b q r v m)) v.side v.price h b.orders_at_price_pool.size
        ≡ some (t, after)

    back : (in_use b.orders_at_price_pool t ≡ true) × ((r.store t).object.prev_entry ≡ some a)
    back =
        let (x, y, _) = inv.levels.next a u in
        (
          ground (arith, x, nx),
          ground (
            arith,
            x,
            y,
            nx,
            allocated.others t,
            allocated.was_free,
            (inv.level t (ground (arith, x, nx))).prev,
          ),
        )

    front : (r.store a).object.next_entry ≡ some t
    front = ground (arith, nx, allocated.others a, allocated.was_free, (inv.level a u).next)

    at_end :
        best_of v.side b ≡ some t
        → FoundAt t true
        → Fits false a (price_rank v.side v.price) (levels_of b)
        → Enters
    at_end e f fits = (
      after4 b r v m a t,
      best_of v.side b,
      insert false m a (price_rank v.side v.price) (levels_of b),
      add-some t t true e f
          ∙ insert_after_lem b q r v m a t (ground (arith, u, allocated.was_free))
              (ground (arith, back, allocated.was_free)) back.1 front
          ∙ ap (λ (c : MeOrderBook). some (tt {0}, c))
              (kept-entered b q r v m (after4 b r v m a t)),
      insert-Joins b r v m w false a t u k nx fits,
      after-Linked b r v m w false a t u k nx,
    )

    between :
        (h : ℕ)
        → best_of v.side b ≡ some h
        → in_use b.orders_at_price_pool h ≡ true
        → beats v.side v.price (level_at b h).price ≡ false
        → FoundAt h false
        → Fits false a (price_rank v.side v.price) (levels_of b)
        → Enters
    between h e hu x f fits = (
      before4 b r v m a t,
      best_of v.side b,
      insert false m a (price_rank v.side v.price) (levels_of b),
      add-some h t false e f
          ∙ insert_before_lem b q r v m a h t held x
              (ground (arith, allocated.others h, allocated.was_free, hu)) back.1,
      insert-Joins b r v m w false a t u k nx fits,
      before-Linked b r v m w false a t u k nx,
    )

    in_front :
        best_of v.side b ≡ some t
        → beats v.side v.price (level_at b t).price ≡ true
        → FoundAt t false
        → Fits true a (price_rank v.side v.price) (levels_of b)
        → Enters
    in_front e x f fits = (
      before5 b r v m a t,
      some m,
      insert true m a (price_rank v.side v.price) (levels_of b),
      add-some t t false e f
          ∙ insert_front_lem b q r v m a t held x
              (ground (arith, allocated.others t, allocated.was_free, back)) back.1,
      insert-Joins b r v m w true a t u k nx fits,
      front-Linked b r v m w true a t u k nx,
    )

  -- The level before a level of the side.
  previous-level :
      (t : ℕ)
      → in_use b.orders_at_price_pool t ≡ true
      → (level_at b t).side ≡ v.side
      → (in_use b.orders_at_price_pool (unwrap (level_at b t).prev_entry) ≡ true)
        × ((level_at b (unwrap (level_at b t).prev_entry)).side ≡ v.side)
        × (unwrap (level_at b (unwrap (level_at b t).prev_entry)).next_entry ≡ t)
  previous-level t u k =
      let (x, y, z) = inv.levels.previous t u in
      (x, ground (arith, z, k, (inv.level t u).side, (inv.level _ x).side), y)

  placed :
      (h t : ℕ) (after : Bool)
      → best_of v.side b ≡ some h
      → find_place (level_at (start b q r v m)) v.side v.price h b.orders_at_price_pool.size
        ≡ some (t, after)
      → Place b v.side v.price h (level_at (start b q r v m)) t after
      → Enters
  placed h t after e f ((tu, tk), place) =
      let hd = head-best_of b r v m w ∙ e in
      let (hu, hg) = inv.levels.head_is (side_to_index v.side) h hd in
      let hk : (level_at b h).side ≡ v.side = ground (arith, hg, (inv.level h hu).side, side) in
      let a = unwrap (level_at b t).prev_entry in
      let (u, k, nx) = previous-level t tu tk in
      let beat =
        beats-rank v.side v.price (level_at b h).price side price_ok (inv.level h hu).price in
      elim place [
        | inl (after_is, th, below) ↦
            at_end a t u k nx (ground (arith, e, th)) (cc)
              (ground (arith, below, th), inl (ground (arith, hd, k, nx, th)))
        | inr (inl (after_is, th, above, below)) ↦
            between a t u k nx h e hu
              (ground (
                arith,
                beat,
                hk,
                above,
                head-least (levels_of b) inv.levels (side_to_index v.side) h a hd u
                    (ap side_to_index k),
              ))
              (f ∙ ap (λ x. some (t, x)) after_is) (above, inr (ground (arith, below, nx)))
        | inr (inr (after_is, th, below)) ↦
            in_front a t u k nx (ground (arith, e, th)) (ground (arith, beat, hk, below, th)) (cc)
              (ground (arith, hd, k, nx, th), ground (arith, below, nx))
      ]

  -- `addOrdersAtPrice` returns, with the new level in the list of its side.
  pub add_orders_at_price-Enters : Enters
  add_orders_at_price-Enters = elim (Option-cases (best_of v.side b)) [
    | inl e ↦ (
      alone1 b r v m,
      some m,
      found m (side_to_index v.side) (price_rank v.side v.price) (levels_of b),
      add-none e,
      alone-Joins b r v m w e,
      alone-Linked b r v m w,
    )
    | inr (h, e) ↦
        let (t, after, f, place) =
          find_place-Place b v.side v.price h (level_at (start b q r v m)) (search h e) in
        placed h t after e f place
  ]
