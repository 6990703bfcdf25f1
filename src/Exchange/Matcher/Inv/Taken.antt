-- ===== src/Exchange/Matcher/Inv/Taken.antt =====
-- `add` of exchange/matcher/me_order_book.cpp as a whole: it returns, and keeps the book in order
-- and uncrossed.
use low_latency_electronic_t.Prelude.{
  ℕ, ◌+◌, ◌≡◌, ◌≢◌, ◌∙◌, ◌⊎◌, ap, sym, inl, inr, true, false, some, ◌==◌, arith, Bool-cases, ℤ,
  ◌<ℤ◌, ◌++◌, ◌∷◌, [],
}
use low_latency_electronic_t.Common.Types.{Side}
use low_latency_electronic_t.Exchange.Matcher.Book.{
  response, MeOrder, MeOrderBook, order_at, generate_new_market_order_id,
}
use low_latency_electronic_t.Exchange.Matcher.Match.{
  rest_order, add, check_for_match, opposite, no_cross,
}
use low_latency_electronic_t.Exchange.Matcher.NewOrder.{accepted}
use low_latency_electronic_t.Exchange.Matcher.Inv.{in_use}
use low_latency_electronic_t.Exchange.Matcher.Inv.Touch.{renewed-Inv}
use low_latency_electronic_t.Exchange.Matcher.Inv.Fill.{BookOk, IsUncrossed, Later}
use low_latency_electronic_t.Exchange.Matcher.Inv.Matching.{Uncrossed, check_for_match-returns}
use low_latency_electronic_t.Exchange.Matcher.Inv.Rest.{Added, OrderIn}
use low_latency_electronic_t.Exchange.Matcher.Inv.Add.{
  CanTake, numbered, resting, rest_order-returns, Later-HasRoom,
}

eq_zero : (n : ℕ) → (n == 0) ≡ true → n ≡ 0
eq_zero n h = ground arith

ne_zero : (n : ℕ) → (n == 0) ≡ false → n ≢ 0
ne_zero n h = ground arith

Later-IsUncrossed : (b b' : MeOrderBook) → Later b b' → IsUncrossed b → IsUncrossed b'
Later-IsUncrossed b b' later x p q u v =
    ground
      (arith, later.same_order p u, later.same_order q v, x p q (later.still p u) (later.still q v))

Added-BookOk : (o : MeOrder) (b b' : MeOrderBook) → BookOk b → o.qty ≢ 0 → Added o b b' → BookOk b'
Added-BookOk o b b' ok n a = record {
  inv = a.inv;
  unfilled = λ q u. ground (arith, a.used q, a.written, a.others q, ok.unfilled q);
}

buy-below : (s : Side) (a x : ℤ) → s ≡ Side.buy → no_cross s a x ≡ true → a <ℤ x
unfolding no_cross
buy-below Side.buy a x e h = ground arith
buy-below Side.sell a x e h = absurd (ground arith)
buy-below Side.invalid a x e h = absurd (ground arith)
buy-below Side.max a x e h = absurd (ground arith)

sell-above : (s : Side) (a x : ℤ) → s ≡ Side.sell → no_cross s a x ≡ true → x <ℤ a
unfolding no_cross
sell-above Side.sell a x e h = ground arith
sell-above Side.buy a x e h = absurd (ground arith)
sell-above Side.invalid a x e h = absurd (ground arith)
sell-above Side.max a x e h = absurd (ground arith)

Added-IsUncrossed :
    (o : MeOrder) (b b' : MeOrderBook)
    → Uncrossed o.side o.price b
    → Added o b b'
    → IsUncrossed b
    → IsUncrossed b'
Added-IsUncrossed o b b' x a y p q u v i j = elim (Bool-cases (p == a.block)) [
  | inl e ↦
      let live : in_use b.order_pool q ≡ true = ground (arith, a.used q, a.written) in
      let s : o.side ≡ Side.buy = ground (arith, a.written) in
      let (t, c, _) = a.others q live in
      let n =
        buy-below o.side o.price (order_at b q).price s
          (x q live (sym t ∙ j ∙ sym (ap opposite s))) in
      ground (arith, n, a.written, c)
  | inr e ↦
      let live : in_use b.order_pool p ≡ true = ground (arith, a.used p) in
      let (t, c, _) = a.others p live in
      elim (Bool-cases (q == a.block)) [
        | inl f ↦
            let s : o.side ≡ Side.sell = ground (arith, a.written) in
            let n =
              sell-above o.side o.price (order_at b p).price s
                (x p live (sym t ∙ i ∙ sym (ap opposite s))) in
            ground (arith, n, a.written, c)
        | inr f ↦
            let live' : in_use b.order_pool q ≡ true = ground (arith, a.used q) in
            let (t', c', _) = a.others q live' in
            ground (arith, y p q live live' (sym t ∙ i) (sym t' ∙ j), c, c')
      ]
]

module _ (client_id client_order_id ticker_id : ℕ) (side : Side) (price : ℤ) (qty : ℕ) where
  -- What `add` leaves.
  pub record Took (b b' : MeOrderBook) : Type 0 where
    pub ok : BookOk b'
    pub uncrossed : IsUncrossed b → IsUncrossed b'
    pub next_id : b'.next_market_order_id ≡ b.next_market_order_id + 1
    pub rests :
        ((q : ℕ) → in_use b'.order_pool q ≡ true → in_use b.order_pool q ≡ true)
        ⊎ ((p : ℕ) × (b'.cid_oid_to_order client_id client_order_id ≡ some p)
            × (in_use b'.order_pool p ≡ true)
            × ((order_at b' p).side ≡ side)
            × ((order_at b' p).price ≡ price))

  add-filled :
      (b b2 : MeOrderBook)
      → check_for_match client_id client_order_id ticker_id side price qty b.next_market_order_id (
          numbered client_id client_order_id ticker_id side price
            (b.sent
              ++ response (
                  accepted client_id client_order_id ticker_id side price b.next_market_order_id
                    qty)
                ∷ [])
            b)
        ≡ some (0, b2)
      → add client_id client_order_id ticker_id side price qty b ≡ some (tt, b2)
  unfolding add generate_new_market_order_id
  add-filled b b2 e = ground arith

  add-rests :
      (b b2 b3 : MeOrderBook) (left : ℕ)
      → check_for_match client_id client_order_id ticker_id side price qty b.next_market_order_id (
          numbered client_id client_order_id ticker_id side price
            (b.sent
              ++ response (
                  accepted client_id client_order_id ticker_id side price b.next_market_order_id
                    qty)
                ∷ [])
            b)
        ≡ some (left, b2)
      → left ≢ 0
      → rest_order client_id client_order_id ticker_id side price left b.next_market_order_id b2
        ≡ some (tt, b3)
      → add client_id client_order_id ticker_id side price qty b ≡ some (tt, b3)
  unfolding add generate_new_market_order_id
  add-rests b b2 b3 left e n r = ground arith

  -- `add` of an order to buy or to sell, with ids and price in range, returns on a book in order that
  -- has at least two free blocks in each of its pools, has a next market order id above 0 and below
  -- 2^64, and whose orders at the index of the price all have that price. The book is in order
  -- afterwards, and uncrossed if it was before, the next market order id is one more, and either
  -- only orders of before are on the book, or the order known for the ids is on the book with the
  -- side and price of the new one.
  pub add-returns :
      (b : MeOrderBook)
      → OrderIn (resting client_id client_order_id ticker_id side price 0 0 0)
      → CanTake client_id client_order_id ticker_id side price b
      → (b' : MeOrderBook) × (add client_id client_order_id ticker_id side price qty b
          ≡ some (tt, b'))
        × Took b b'
  add-returns b fine t =
      let m =
        b.sent
        ++ response
            (accepted client_id client_order_id ticker_id side price b.next_market_order_id qty)
          ∷ [] in
      let b1 = numbered client_id client_order_id ticker_id side price m b in
      let ok1 : BookOk b1 = record {
        inv = renewed-Inv (b.next_market_order_id + 1) m b (omega arith) t.ok.inv;
        unfilled = t.ok.unfilled;
      } in
      let (left, b2, e, ok2, later, out) =
        check_for_match-returns client_id client_order_id ticker_id side price qty
          b.next_market_order_id b1 fine.side ok1 in
      elim (Bool-cases (left == 0)) [
        | inl z ↦ (
          b2,
          add-filled b b2 (e ∙ ap (λ (n : ℕ). some (n, b2)) (eq_zero left z)),
          record {
            ok = ok2;
            uncrossed = Later-IsUncrossed b1 b2 later;
            next_id = later.next_id;
            rests = inl later.still;
          },
        )
        | inr z ↦
            let x : Uncrossed side price b2 = elim out [
              | inl c ↦ absurd (ne_zero left z c)
              | inr x ↦ x
            ] in
            let room =
              Later-HasRoom client_id client_order_id ticker_id side price m b b2 fine.side t ok2
                later x in
            let (k, b3, r, a) =
              rest_order-returns client_id client_order_id ticker_id side price left
                b.next_market_order_id b2 ok2.inv room
                (record {
                  ids = record { client = fine.ids.client; client_order = fine.ids.client_order };
                  side = fine.side;
                  price = fine.price;
                }) in
            let o =
              resting client_id client_order_id ticker_id side price left b.next_market_order_id
                k in
            (
              b3,
              add-rests b b2 b3 left e (ne_zero left z) r,
              record {
                ok = Added-BookOk o b2 b3 ok2 (ne_zero left z) a;
                uncrossed = λ u. Added-IsUncrossed o b2 b3 x a (Later-IsUncrossed b1 b2 later u);
                next_id = a.next_id ∙ later.next_id;
                rests =
                    inr (
                      a.block,
                      a.indexed,
                      ground (arith, a.used a.block),
                      a.written.0,
                      a.written.1,
                    );
              },
            )
      ]
