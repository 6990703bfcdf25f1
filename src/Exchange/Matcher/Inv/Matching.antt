-- ===== src/Exchange/Matcher/Inv/Matching.antt =====
-- `checkForMatch` of exchange/matcher/me_order_book.cpp as a whole: it returns, it fills by price
-- and time, and it leaves no order that the aggressor could still trade with.
use low_latency_electronic_t.Prelude.{
  ℕ, suc, ◌+◌, ◌%◌, ◌^◌, ◌<◌, ◌≡◌, ◌≢◌, ◌⊎◌, ◌∙◌, inl, inr, refl, true, false, none, some, arith,
  Option-cases, Bool-cases, ℤ, count-le,
}
use low_latency_electronic_t.Common.Types.{Side}
use low_latency_electronic_t.Exchange.Matcher.Book.{
  ◌>>=◌, MeOrder, MeOrderBook, order_at, level_at, best,
}
use low_latency_electronic_t.Exchange.Matcher.Levels.{beats}
use low_latency_electronic_t.Exchange.Matcher.Match.{
  match_order, match_loop, check_for_match, no_cross, opposite,
}
use low_latency_electronic_t.Exchange.Matcher.Fills.{Done}
use low_latency_electronic_t.Exchange.Matcher.Trades.{check_for_match-Run}
use low_latency_electronic_t.Exchange.Matcher.Inv.{unwrap, in_use, Inv}
use low_latency_electronic_t.Exchange.Matcher.Inv.Front.{
  IsFront, Ahead, best-used, first-used, front-first,
}
use low_latency_electronic_t.Exchange.Matcher.Inv.Removal.{level-known}
use low_latency_electronic_t.Exchange.Matcher.Inv.Fill.{BookOk, Later, Later-refl, live_count}
use low_latency_electronic_t.Exchange.Matcher.Inv.Loop.{
  opposite-cases, Returns, match_loop-pass, match_loop-Returns,
}

-- No order on the book that an order of this side and price could trade with.
abbrev pub Uncrossed : Side → ℤ → MeOrderBook → Type 0
Uncrossed side price b =
    (q : ℕ)
    → in_use b.order_pool q ≡ true
    → (order_at b q).side ≡ opposite side
    → no_cross side price (order_at b q).price ≡ true

side-best :
    (b : MeOrderBook) (s : Side) (m : ℕ)
    → Inv b
    → (s ≡ Side.buy) ⊎ (s ≡ Side.sell)
    → in_use b.orders_at_price_pool m ≡ true
    → (level_at b m).side ≡ s
    → best s b ≢ none
unfolding best
side-best b Side.buy m inv h u k = ground (arith, inv.levels.has_head m u, k)
side-best b Side.sell m inv h u k = ground (arith, inv.levels.has_head m u, k)
side-best b Side.invalid m inv h u k = absurd (ground arith)
side-best b Side.max m inv h u k = absurd (ground arith)

-- A side with an order on it has a front order.
pub side-IsFront :
    (b : MeOrderBook) (s : Side) (q : ℕ)
    → Inv b
    → (s ≡ Side.buy) ⊎ (s ≡ Side.sell)
    → in_use b.order_pool q ≡ true
    → (order_at b q).side ≡ s
    → (p : ℕ) × IsFront s p b × (in_use b.order_pool p ≡ true) × ((order_at b p).side ≡ s)
side-IsFront b s q inv h u k = elim (Option-cases (best s b)) [
  | inl e ↦
      let (m, found) = level-known b q inv u in
      let (_, side) = (inv.order q u).same_price m found in
      absurd (side-best b s m inv h (inv.price_index _ m found).0 (side ∙ k) e)
  | inr (l, e) ↦
      let (lu, side) = best-used b inv s l h e in
      let first = (inv.level l lu).first in
      let (v, _, x) = first-used b inv l (unwrap (level_at b l).first_me_order) lu first in
      (unwrap (level_at b l).first_me_order, (l, e, first), v, x ∙ side)
]

-- An order behind one that does not cross does not cross.
Ahead-no_cross :
    (side : Side) (price : ℤ) (o x : MeOrder)
    → Ahead (opposite side) o x
    → no_cross side price o.price ≡ true
    → no_cross side price x.price ≡ true
unfolding beats no_cross
Ahead-no_cross Side.buy price o x a h = ground (arith, a)
Ahead-no_cross Side.sell price o x a h = ground (arith, a)
Ahead-no_cross Side.invalid price o x a h = ground (arith, a)
Ahead-no_cross Side.max price o x a h = ground (arith, a)

Done-Uncrossed :
    (side : Side) (price : ℤ) (left : ℕ) (b : MeOrderBook)
    → Inv b
    → Done side price left b
    → (left ≡ 0) ⊎ Uncrossed side price b
Done-Uncrossed side price left b inv (inl h) = inl h
Done-Uncrossed side price left b inv (inr (inl h)) = inr λ q u k.
    let (p, (l, e, _), _, _) = side-IsFront b (opposite side) q inv (opposite-cases side) u k in
    absurd (ground arith)
Done-Uncrossed side price left b inv (inr (inr (l, p, e, f, x))) = inr λ q u k.
    elim (front-first b inv (opposite side) p q (opposite-cases side) (l, e, f) u k) [
      | inl w ↦ rw w x
      | inr w ↦ Ahead-no_cross side price (order_at b p) (order_at b q) w x
    ]

check_for_match-Later :
    (client_id client_order_id ticker_id : ℕ) (side : Side) (price : ℤ) (qty market_order_id : ℕ)
    (b : MeOrderBook)
    → BookOk b
    → Returns
        (check_for_match client_id client_order_id ticker_id side price qty market_order_id b)
        b
unfolding check_for_match
check_for_match-Later client_id client_order_id ticker_id side price qty moid b ok = go side
  where
    enough : live_count b + 1 < b.order_pool.size + 2
    enough = omega (arith, count-le (in_use b.order_pool) b.order_pool.size)

    go :
        (s : Side)
        → Returns (check_for_match client_id client_order_id ticker_id s price qty moid b) b
    go Side.buy =
        match_loop-Returns client_id client_order_id ticker_id Side.buy price (moid % 2 ^ 32)
          (b.order_pool.size + 2) qty b ok (inr enough)
    go Side.sell =
        match_loop-Returns client_id client_order_id ticker_id Side.sell price (moid % 2 ^ 32)
          (b.order_pool.size + 2) qty b ok (inr enough)
    go Side.invalid = (qty, b, refl, ok, Later-refl b)
    go Side.max = (qty, b, refl, ok, Later-refl b)

-- On a book in order, `checkForMatch` of an order to buy or to sell returns: each pass of its loop
-- that goes on takes an order off the book, so that the passes end. It leaves the book in order,
-- with no order that was not there before, and either nothing is left of the aggressor or no order
-- of the other side crosses its price any more.
pub check_for_match-returns :
    (client_id client_order_id ticker_id : ℕ) (side : Side) (price : ℤ) (qty market_order_id : ℕ)
    (b : MeOrderBook)
    → (side ≡ Side.buy) ⊎ (side ≡ Side.sell)
    → BookOk b
    → (left : ℕ) × (b' : MeOrderBook) × (check_for_match client_id client_order_id ticker_id side
          price qty market_order_id b
        ≡ some (left, b'))
      × BookOk b'
      × Later b b'
      × ((left ≡ 0) ⊎ Uncrossed side price b')
check_for_match-returns client_id client_order_id ticker_id side price qty moid b h ok =
    let (left, b', e, ok', later) =
      check_for_match-Later client_id client_order_id ticker_id side price qty moid b ok in
    let (_, _, _, _, done) =
      check_for_match-Run client_id client_order_id ticker_id side price qty moid b h e in
    (left, b', e, ok', later, Done-Uncrossed side price left b' ok'.inv done)

-- While something is left of the aggressor and an order of the other side of a book in order crosses
-- its price, the next pass of the loop is a fill with an order of that side, followed by the rest of
-- the loop; and that order comes before all others of its side, by price and, at one price, by
-- priority.
pub match_loop-IsFirst :
    (client_id client_order_id ticker_id : ℕ) (side : Side) (price : ℤ) (moid fuel leaves q : ℕ)
    (b : MeOrderBook)
    → Inv b
    → leaves ≢ 0
    → in_use b.order_pool q ≡ true
    → (order_at b q).side ≡ opposite side
    → no_cross side price (order_at b q).price ≡ false
    → (p : ℕ) × (match_loop (suc fuel) client_id client_order_id ticker_id side price moid leaves b
        ≡ (match_order ticker_id client_id side client_order_id moid p leaves
              >>= match_loop fuel client_id client_order_id ticker_id side price moid)
            b)
      × (in_use b.order_pool p ≡ true)
      × ((order_at b p).side ≡ opposite side)
      × ((x : ℕ)
          → in_use b.order_pool x ≡ true
          → (order_at b x).side ≡ opposite side
          → (x ≡ p) ⊎ Ahead (opposite side) (order_at b p) (order_at b x))
match_loop-IsFirst client_id client_order_id ticker_id side price moid fuel leaves q b inv z u k x =
    let (p, front, v, s) = side-IsFront b (opposite side) q inv (opposite-cases side) u k in
    let first : (y : ℕ)
        → in_use b.order_pool y ≡ true
        → (order_at b y).side ≡ opposite side
        → (y ≡ p) ⊎ Ahead (opposite side) (order_at b p) (order_at b y) =
      λ y w r. front-first b inv (opposite side) p y (opposite-cases side) front w r in
    let crosses : no_cross side price (order_at b p).price ≡ false =
      elim (Bool-cases (no_cross side price (order_at b p).price)) [
        | inl n ↦ absurd (elim (first q u k) [
          | inl w ↦ ground (arith, w)
          | inr w ↦ ground (arith, Ahead-no_cross side price (order_at b p) (order_at b q) w n)
        ])
        | inr n ↦ n
      ] in
    (
      p,
      match_loop-pass client_id client_order_id ticker_id side price moid fuel leaves p b z front
          crosses,
      v,
      s,
      first,
    )
