-- ===== src/Exchange/Matcher/Inv/Walk.antt =====
-- The search of `addOrdersAtPrice` in exchange/matcher/me_order_book.h ends, at the place of the
-- new level.
use low_latency_electronic_t.Prelude.{
  eq_of_parts, ℕ, zero, suc, ◌+◌, ◌<◌, ◌≡◌, ◌≢◌, ◌⊎◌, ◌∙◌, refl, inl, inr, Bool, true, false, ◌&&◌,
  some, ◌==◌, arith, Bool-cases, ltb, ℤ, count, count-strict, count-lt,
}
use low_latency_electronic_t.Common.Types.{Side, side_to_index}
use low_latency_electronic_t.Exchange.Matcher.Book.{MeOrdersAtPrice, MeOrderBook, level_at}
use low_latency_electronic_t.Exchange.Matcher.Levels.{goes_after, walk, find_place}
use low_latency_electronic_t.Exchange.Matcher.Inv.{
  unwrap, in_use, IsPrice, price_rank, levels_of, Inv,
}

pub goes_after-rank :
    (s : Side) (a x : ℤ)
    → (s ≡ Side.buy) ⊎ (s ≡ Side.sell)
    → IsPrice a
    → IsPrice x
    → goes_after s a x ≡ ltb (price_rank s x) (price_rank s a)
unfolding goes_after
goes_after-rank Side.buy a x h i j = ground arith
goes_after-rank Side.sell a x h i j = ground arith
goes_after-rank Side.invalid a x h i j = absurd (ground arith)
goes_after-rank Side.max a x h i j = absurd (ground arith)

-- Prices of one rank are equal.
price_rank-inj :
    (s : Side) (a x : ℤ) → IsPrice a → IsPrice x → price_rank s a ≡ price_rank s x → a ≡ x
price_rank-inj Side.buy a x i j e = eq_of_parts a x (omega (arith, i.0, i.1, j.0, j.1, e))
price_rank-inj Side.sell a x i j e = eq_of_parts a x (omega (arith, i.0, i.1, j.0, j.1, e))
price_rank-inj Side.invalid a x i j e = eq_of_parts a x (omega (arith, i.0, i.1, j.0, j.1, e))
price_rank-inj Side.max a x i j e = eq_of_parts a x (omega (arith, i.0, i.1, j.0, j.1, e))

-- A level of the side `s` and the price `price` is to go into the list of the head `h`.
module _ (b : MeOrderBook) (s : Side) (price : ℤ) (h : ℕ) (lv : ℕ → MeOrdersAtPrice) where
  abbrev pub rank : ℕ → ℕ
  rank x = price_rank (level_at b x).side (level_at b x).price

  abbrev pub before : ℕ → ℕ
  before x = unwrap (level_at b x).prev_entry

  abbrev pub IsLevel : ℕ → Type 0
  IsLevel x = (in_use b.orders_at_price_pool x ≡ true) × ((level_at b x).side ≡ s)

  pub record Search : Type 0 where
    pub inv : Inv b
    pub side : (s ≡ Side.buy) ⊎ (s ≡ Side.sell)
    pub price_ok : IsPrice price
    pub head : (levels_of b).head (side_to_index s) ≡ some h
    pub same : (x : ℕ) → in_use b.orders_at_price_pool x ≡ true → lv x ≡ level_at b x
    pub fresh : (x : ℕ) → IsLevel x → (level_at b x).price ≢ price

  -- The place of the new level: at the end, before a level that is not the head, or in front.
  abbrev pub Place : ℕ → Bool → Type 0
  Place t after =
      IsLevel t
      × (((after ≡ true) × (t ≡ h) × (rank (before h) < price_rank s price))
          ⊎ ((after ≡ false)
              × (t ≢ h)
              × (rank (before t) < price_rank s price)
              × (price_rank s price < rank t))
          ⊎ ((after ≡ false) × (t ≡ h) × (price_rank s price < rank t)))

  -- How many levels rank behind `t`.
  abbrev behind : ℕ → ℕ
  behind t =
      count (λ x. in_use b.orders_at_price_pool x && ltb (rank t) (rank x))
        b.orders_at_price_pool.size

  module _ (k : Search) where
    open k use {inv, side, price_ok, head, same, fresh}

    after-rank :
        (t : ℕ) → IsLevel t → goes_after s price (lv t).price ≡ ltb (rank t) (price_rank s price)
    after-rank t (u, v) =
        goes_after-rank s price (lv t).price side price_ok
          (ground (arith, same t u, (inv.level t u).price))
        ∙ ground (arith, same t u, v)

    rank-ne : (t : ℕ) → IsLevel t → rank t ≢ price_rank s price
    rank-ne t (u, v) e =
        fresh t (u, v)
          (price_rank-inj s (level_at b t).price price (inv.level t u).price price_ok
            (ground (arith, e, v)))

    -- The level behind `t`.
    next-IsLevel :
        (t : ℕ)
        → IsLevel t
        → IsLevel (unwrap (level_at b t).next_entry)
          × (before (unwrap (level_at b t).next_entry) ≡ t)
    next-IsLevel t (u, v) =
        let (x, y, z) = inv.levels.next t u in
        ((x, ground (arith, z, v, (inv.level t u).side, (inv.level _ x).side)), y)

    -- One step further, fewer levels are behind.
    fewer :
        (t n : ℕ)
        → IsLevel t
        → in_use b.orders_at_price_pool n ≡ true
        → before n ≡ t
        → (level_at b n).side ≡ s
        → (fuel : ℕ) → behind t + 1 < suc fuel
        → (((n ≡ h) ⊎ (true ≡ false)) × (0 < fuel)) ⊎ (behind n + 1 < fuel)
    fewer t n l u w v fuel f = elim (Bool-cases (n == h)) [
      | inl e ↦ inl (inl (ground arith), omega (arith, f))
      | inr e ↦
          let up : rank t < rank n = ground (arith, inv.levels.rises n u, head, w, v) in
          inr (
            omega (
              arith,
              f,
              count-strict (λ x. in_use b.orders_at_price_pool x && ltb (rank t) (rank x))
                  (λ x. in_use b.orders_at_price_pool x && ltb (rank n) (rank x)) n
                  b.orders_at_price_pool.size (λ q c. ground arith) (ground (arith, u, up))
                  (ground arith) (inv.level n u).in_pool,
            ))
    ]

    walk-Place :
        (fuel t : ℕ) (after : Bool)
        → IsLevel t
        → rank (before t) < price_rank s price
        → (t ≡ h → after ≡ true)
        → (after ≡ false → rank t < price_rank s price → ⊥)
        → (((t ≡ h) ⊎ (after ≡ false)) × (0 < fuel)) ⊎ (behind t + 1 < fuel)
        → (x : ℕ) × (a : Bool) × (walk lv s price h fuel t after ≡ some (x, a)) × Place x a
    unfolding walk
    walk-Place zero t after l p i o f = absurd (ground arith)
    walk-Place (suc fuel) t false l p i o f =
        let r = rank-ne t l in
        (t, false, refl, (l, inr (inl (refl, ground (arith, i), p, ground (arith, o, r)))))
    walk-Place (suc fuel) t true l p i o f =
        let m = after-rank t l in
        elim (Bool-cases (t == h)) [
          | inl e ↦ (t, true, simp (e) refl, (l, inl (refl, ground arith, ground arith)))
          | inr e ↦ elim (Bool-cases (goes_after s price (lv t).price)) [
            | inl g ↦
                let ((u, v), w) = next-IsLevel t l in
                let below : rank t < price_rank s price = ground (arith, m) in
                let n = unwrap (level_at b t).next_entry in
                let link : (lv t).next_entry ≡ some n =
                  ground (arith, same t l.0, (inv.level t l.0).next) in
                let (x, a, q, place) =
                  walk-Place fuel n true (u, v) (ground (arith, w, below)) (λ _. refl)
                    (λ c _. ground arith) (fewer t n l u w v fuel (ground (arith, f))) in
                (x, a, simp (e) (simp (g, link) q), place)
            | inr g ↦
                let (x, a, q, place) =
                  walk-Place fuel t false l p (λ c. ground arith) (λ _ c. ground (arith, m))
                    (inl (inr refl, ground (arith, f))) in
                (x, a, simp (e) (simp (g) q), place)
          ]
        ]

    walk-now : (fuel t : ℕ) → 0 < fuel → walk lv s price h fuel t false ≡ some (t, false)
    unfolding walk
    walk-now zero t f = absurd (omega arith)
    walk-now (suc fuel) t f = refl

    -- The pool has room for the levels behind one on the book, that one, and a free block.
    room :
        (t : ℕ)
        → in_use b.orders_at_price_pool t ≡ true
        → behind t + 1 < b.orders_at_price_pool.size
    room t u = omega (
      arith,
      count-strict (in_use b.orders_at_price_pool)
          (λ x. in_use b.orders_at_price_pool x && ltb (rank t) (rank x)) t
          b.orders_at_price_pool.size (λ q c. ground arith) u (ground arith)
          (inv.level t u).in_pool,
      count-lt (in_use b.orders_at_price_pool) b.orders_at_price_pool.next_free_index
          b.orders_at_price_pool.size (ground (arith, inv.level_pool.free)) inv.level_pool.in_range,
    )

    -- The search finds the place of the new level, with the size of the pool as its fuel.
    pub find_place-Place :
        (t : ℕ) × (after : Bool) × (find_place lv s price h b.orders_at_price_pool.size
          ≡ some (t, after))
        × Place t after
    unfolding find_place
    find_place-Place =
        let (u, g) = inv.levels.head_is (side_to_index s) h head in
        let v : (level_at b h).side ≡ s = ground (arith, g, (inv.level h u).side, side) in
        let m = after-rank h (u, v) in
        elim (Bool-cases (goes_after s price (lv h).price)) [
          | inl e ↦
              let ((un, vn), w) = next-IsLevel h (u, v) in
              let n = unwrap (level_at b h).next_entry in
              let link : (lv h).next_entry ≡ some n =
                ground (arith, same h u, (inv.level h u).next) in
              let mn = after-rank n (un, vn) in
              let (x, a, q, place) =
                walk-Place b.orders_at_price_pool.size n (goes_after s price (lv n).price) (un, vn)
                  (ground (arith, w, m)) (λ c. ground (arith, m, mn)) (λ c d. ground (arith, mn))
                  (inr (room n un)) in
              (x, a, simp (e, link) q, place)
          | inr e ↦ (
            h,
            false,
            simp (e)
                (walk-now b.orders_at_price_pool.size h (omega (arith, inv.level_pool.in_range))),
            ((u, v), inr (inr (refl, refl, ground (arith, m, rank-ne h (u, v))))),
          )
        ]
