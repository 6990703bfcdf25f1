-- ===== src/Exchange/Matcher/Inv/Front.antt =====
-- The order that `checkForMatch` of exchange/matcher/me_order_book.cpp meets first: the first order
-- of the best level of a side.
use low_latency_electronic_t.Prelude.{ℕ, ◌<◌, ◌≡◌, ◌⊎◌, inl, inr, ap, true, some, arith}
use low_latency_electronic_t.Common.Types.{Side}
use low_latency_electronic_t.Common.Rings.Reach.{head-least}
use low_latency_electronic_t.Exchange.Matcher.Book.{
  MeOrder, MeOrderBook, order_at, level_at, price_to_index, best,
}
use low_latency_electronic_t.Exchange.Matcher.Levels.{beats}
use low_latency_electronic_t.Exchange.Matcher.Inv.{in_use, orders_of, levels_of, Inv}
use low_latency_electronic_t.Exchange.Matcher.Inv.Removal.{level-known}

-- `p` is the first order of the best level of the side `s`.
abbrev pub IsFront : Side → ℕ → MeOrderBook → Type 0
IsFront s p b = (l : ℕ) × (best s b ≡ some l) × ((level_at b l).first_me_order ≡ some p)

-- An order of the side `s` that is to be filled before another: it has the better price, or the
-- same price and the smaller priority.
abbrev pub Ahead : Side → MeOrder → MeOrder → Type 0
Ahead s o x = (beats s o.price x.price ≡ true) ⊎ ((o.price ≡ x.price) × (o.priority < x.priority))

module _ (b : MeOrderBook) (inv : Inv b) where
  pub best-used :
      (s : Side) (l : ℕ)
      → (s ≡ Side.buy) ⊎ (s ≡ Side.sell)
      → best s b ≡ some l
      → (in_use b.orders_at_price_pool l ≡ true) × ((level_at b l).side ≡ s)
  unfolding best
  best-used Side.buy l h e =
      let (u, g) = inv.levels.head_is 2 l e in (u, ground (arith, g, (inv.level l u).side))
  best-used Side.sell l h e =
      let (u, g) = inv.levels.head_is 0 l e in (u, ground (arith, g, (inv.level l u).side))
  best-used Side.invalid l h e = absurd (ground arith)
  best-used Side.max l h e = absurd (ground arith)

  -- The first order of a level on the book is on the book, with the level's price and side.
  pub first-used :
      (l p : ℕ)
      → in_use b.orders_at_price_pool l ≡ true
      → (level_at b l).first_me_order ≡ some p
      → (in_use b.order_pool p ≡ true)
        × ((order_at b p).price ≡ (level_at b l).price)
        × ((order_at b p).side ≡ (level_at b l).side)
  first-used l p u f =
      let i = (inv.level l u).indexed in
      let (v, g) =
        inv.orders.head_is (price_to_index (level_at b l).price) p (ground (arith, i, f)) in
      let (x, y) = (inv.order p v).same_price l (ground (arith, i, g)) in
      (v, ground (arith, x), ground (arith, y))

  -- The other levels of the side have a worse price than the best one.
  best-least :
      (s : Side) (l m : ℕ)
      → (s ≡ Side.buy) ⊎ (s ≡ Side.sell)
      → best s b ≡ some l
      → in_use b.orders_at_price_pool m ≡ true
      → (level_at b m).side ≡ s
      → (m ≡ l) ⊎ (beats s (level_at b l).price (level_at b m).price ≡ true)
  unfolding best beats
  best-least Side.buy l m h e u k =
      let (v, side) = best-used Side.buy l h e in
      ground (
        arith,
        head-least (levels_of b) inv.levels 2 l m e u,
        k,
        side,
        (inv.level l v).price,
        (inv.level m u).price,
      )
  best-least Side.sell l m h e u k =
      let (v, side) = best-used Side.sell l h e in
      ground (
        arith,
        head-least (levels_of b) inv.levels 0 l m e u,
        k,
        side,
        (inv.level l v).price,
        (inv.level m u).price,
      )
  best-least Side.invalid l m h e u k = absurd (ground arith)
  best-least Side.max l m h e u k = absurd (ground arith)

  -- The front order of a side has the best price there, and is the oldest at its price.
  pub front-first :
      (s : Side) (p q : ℕ)
      → (s ≡ Side.buy) ⊎ (s ≡ Side.sell)
      → IsFront s p b
      → in_use b.order_pool q ≡ true
      → (order_at b q).side ≡ s
      → (q ≡ p) ⊎ Ahead s (order_at b p) (order_at b q)
  front-first s p q h (l, e, f) u k =
      let (m, found) = level-known b q inv u in
      let (lu, side) = best-used s l h e in
      let (pu, price, _) = first-used l p lu f in
      let (qprice, qside) = (inv.order q u).same_price m found in
      let (mu, _) = inv.price_index _ m found in
      elim (best-least s l m h e mu (ground arith)) [
        | inl w ↦
            let i = price_to_index (level_at b l).price in
            let same : (order_at b q).price ≡ (level_at b l).price = ground (arith, qprice, w) in
            let first : (orders_of b).head i ≡ some p =
              ground (arith, (inv.level l lu).indexed, f) in
            ground (
              arith,
              price,
              same,
              head-least (orders_of b) inv.orders i p q first u (ap price_to_index same),
            )
        | inr w ↦ inr (inl (ground (arith, price, qprice, w)))
      ]
