-- ===== src/Exchange/Matcher/Fills.antt =====
-- What `match` and `checkForMatch` of exchange/matcher/me_order_book.cpp send.
use low_latency_electronic_t.Prelude.{
  ℕ, zero, suc, ◌-◌, ℤ, ◌≡◌, ◌≢◌, refl, sym, ap, subst, ◌∙◌, true, false, none, some, List, [], ◌∷◌,
  ◌++◌, list_laws, append-nil, ◌⊎◌, inl, inr, arith, Option-cases, Bool-cases, ◌==◌, min,
  if◌then◌else◌,
}
use low_latency_electronic_t.Common.Types.{Side, order_id_invalid, priority_invalid}
use low_latency_electronic_t.Exchange.Messages.{
  ClientResponseType, MarketUpdateType, MeMarketUpdate,
}
use low_latency_electronic_t.Exchange.Matcher.Book.{
  pure, poke, Sent, response, market, MeOrder, MeOrderBook, order_at, level_at, best,
}
use low_latency_electronic_t.Exchange.Matcher.Silent.{frame, remove_order-frame, >>=-inv}
use low_latency_electronic_t.Exchange.Matcher.Match.{
  settle_passive, match_order, match_loop, no_cross, opposite,
}

-- What is left of a passive order once an aggressor with `leaves` has met it.
abbrev pub rest_of : ℕ → MeOrder → ℕ
rest_of leaves o = o.qty - min leaves o.qty

-- The update on a passive order after its fill: a CANCEL if nothing is left, else a MODIFY.
abbrev pub settled : ℕ → ℕ → MeOrder → MeMarketUpdate
settled ticker_id order_qty o =
    if o.qty == 0
    then record {
      type = MarketUpdateType.cancel;
      order_id = o.market_order_id;
      ticker_id = ticker_id;
      side = o.side;
      price = o.price;
      qty = order_qty;
      priority = priority_invalid;
    }
    else record {
      type = MarketUpdateType.modify;
      order_id = o.market_order_id;
      ticker_id = ticker_id;
      side = o.side;
      price = o.price;
      qty = o.qty;
      priority = o.priority;
    }

order_at-poke :
    (p : ℕ) (o : MeOrder) (b : MeOrderBook)
    → order_at (record b { order_pool = poke b.order_pool p o }) p ≡ o
order_at-poke p o b = ground arith

settle_passive-frame :
    (ticker_id order_qty p : ℕ) (b : MeOrderBook) {b' : MeOrderBook}
    → settle_passive ticker_id order_qty p b ≡ some (tt, b')
    → frame b'
      ≡ (b.sent ++ market (settled ticker_id order_qty (order_at b p)) ∷ [], b.next_market_order_id)
unfolding settle_passive
settle_passive-frame ticker_id order_qty p b e = elim (Bool-cases ((order_at b p).qty == 0)) [
  | inl h ↦ remove_order-frame p _ (rw h at e) ∙ rw h refl
  | inr h ↦ ground arith
]

-- What is left of an aggressor after its fills with the passive orders of a list, in turn.
unfoldable pub left_after : ℕ → List MeOrder → ℕ
left_after leaves [] = leaves
left_after leaves (o ∷ os) = left_after (leaves - min leaves o.qty) os

module _ (side : Side) (price : ℤ) where
  -- Each order of the list crosses the price, and meets an aggressor that is not yet filled.
  abbrev pub Met : ℕ → List MeOrder → Type 0
  Met leaves [] = Unit {0}
  Met leaves (o ∷ os) =
      (leaves ≢ 0) × (no_cross side price o.price ≡ false) × Met (leaves - min leaves o.qty) os

  -- Why the loop ends: the aggressor is filled, the other side is empty, or the first order of
  -- its best level does not cross.
  abbrev pub Done : ℕ → MeOrderBook → Type 0
  Done left b =
      (left ≡ 0)
      ⊎ (best (opposite side) b ≡ none)
      ⊎ ((l p : ℕ) × (best (opposite side) b ≡ some l)
          × ((level_at b l).first_me_order ≡ some p)
          × (no_cross side price (order_at b p).price ≡ true))

-- An aggressor on its way through the book. `market_order_id` is what its messages carry.
module _ (ticker_id client_id : ℕ) (side : Side) (client_order_id market_order_id : ℕ) where
  -- The messages of one fill, with `leaves` before it: to the aggressor, to the owner of the
  -- passive order `o`, and to the market.
  abbrev pub fill_messages : ℕ → MeOrder → List Sent
  fill_messages leaves o =
      response (record {
        type = ClientResponseType.filled;
        client_id = client_id;
        ticker_id = ticker_id;
        client_order_id = client_order_id;
        market_order_id = market_order_id;
        side = side;
        price = o.price;
        exec_qty = min leaves o.qty;
        leaves_qty = leaves - min leaves o.qty;
      })
      ∷ response (record {
        type = ClientResponseType.filled;
        client_id = o.client_id;
        ticker_id = ticker_id;
        client_order_id = o.client_order_id;
        market_order_id = o.market_order_id;
        side = o.side;
        price = o.price;
        exec_qty = min leaves o.qty;
        leaves_qty = rest_of leaves o;
      })
      ∷ market (record {
        type = MarketUpdateType.trade;
        order_id = order_id_invalid;
        ticker_id = ticker_id;
        side = side;
        price = o.price;
        qty = min leaves o.qty;
        priority = priority_invalid;
      })
      ∷ market (settled ticker_id o.qty (record o { qty = rest_of leaves o }))
      ∷ []

  pub match_order-frame :
      (p leaves : ℕ) (b : MeOrderBook) {left : ℕ} {b' : MeOrderBook}
      → match_order ticker_id client_id side client_order_id market_order_id p leaves b
        ≡ some (left, b')
      → (left ≡ leaves - min leaves (order_at b p).qty)
        × (frame b' ≡ (b.sent ++ fill_messages leaves (order_at b p), b.next_market_order_id))
  unfolding match_order
  match_order-frame p leaves b {left} {b'} e =
      let o = order_at b p in
      let (_, b1, u, r) =
        >>=-inv (settle_passive ticker_id o.qty p) (λ _. pure (leaves - min leaves o.qty)) _ e in
      let same : b1 ≡ b' = ground arith in
      (
        ground arith,
        sym (ap frame same)
            ∙ settle_passive-frame ticker_id o.qty p _ u
            ∙ simp (order_at-poke p (record o { qty = rest_of leaves o }) b, list_laws),
      )

  -- The messages of the fills of an aggressor with the passive orders of a list, in turn.
  unfoldable pub fills : ℕ → List MeOrder → List Sent
  fills leaves [] = []
  fills leaves (o ∷ os) = fill_messages leaves o ++ fills (leaves - min leaves o.qty) os

  module _ (price : ℤ) where
    -- What a run of the loop from `leaves` to `left` did.
    abbrev pub Run : ℕ → ℕ → MeOrderBook → MeOrderBook → Type 0
    Run leaves left b b' =
        (os : List MeOrder) × (frame b' ≡ (b.sent ++ fills leaves os, b.next_market_order_id))
        × (left ≡ left_after leaves os)
        × Met side price leaves os
        × Done side price left b'

    stopped :
        (leaves : ℕ) (b b' : MeOrderBook) {left : ℕ}
        → pure leaves b ≡ some (left, b')
        → Done side price leaves b
        → Run leaves left b b'
    unfolding fills left_after
    stopped leaves b b' {left} e d =
        let same_left : leaves ≡ left = ground arith in
        let same : b ≡ b' = ground arith in
        (
          [],
          sym (ap frame same) ∙ ap (λ l. (l, b.next_market_order_id)) (sym (append-nil b.sent)),
          sym same_left,
          tt,
          subst (λ x. Done side price x b') same_left (subst (Done side price leaves) same d),
        )

    -- A fill before a run.
    met :
        (p leaves : ℕ) (b b' : MeOrderBook) {next left : ℕ} {b1 : MeOrderBook}
        → match_order ticker_id client_id side client_order_id market_order_id p leaves b
          ≡ some (next, b1)
        → no_cross side price (order_at b p).price ≡ false
        → leaves ≢ 0
        → Run next left b1 b'
        → Run leaves left b b'
    unfolding fills left_after
    met p leaves b b' {next} m x z (os, sent, after, each, done) =
        let (rest, sent1) = match_order-frame p leaves b m in
        (
          order_at b p ∷ os,
          sent
              ∙ ap (λ (f : List Sent × ℕ). (f.0 ++ fills next os, f.1)) sent1
              ∙ simp (sym rest, list_laws),
          rw (sym rest) after,
          (z, x, rw (sym rest) each),
          done,
        )

    pub match_loop-Run :
        (fuel leaves : ℕ) (b : MeOrderBook) {left : ℕ} {b' : MeOrderBook}
        → match_loop fuel client_id client_order_id ticker_id side price market_order_id leaves b
          ≡ some (left, b')
        → Run leaves left b b'
    unfolding match_loop fills left_after
    match_loop-Run zero leaves b e = absurd (ground arith)
    match_loop-Run (suc fuel) leaves b {left} {b'} e = elim (Bool-cases (leaves == 0)) [
      | inl z ↦ stopped leaves b b' (ground arith) (inl (ground arith))
      | inr z ↦ elim (Option-cases (best (opposite side) b)) [
        | inl h ↦ stopped leaves b b' (ground arith) (inr (inl h))
        | inr (l, h) ↦ elim (Option-cases (level_at b l).first_me_order) [
          | inl n ↦ absurd (ground arith)
          | inr (p, f) ↦ elim (Bool-cases (no_cross side price (order_at b p).price)) [
            | inl x ↦ stopped leaves b b' (ground arith) (inr (inr (l, p, h, f, x)))
            | inr x ↦
                let (next, b1, m, r) =
                  >>=-inv
                    (match_order ticker_id client_id side client_order_id market_order_id p leaves)
                    (match_loop fuel client_id client_order_id ticker_id side price market_order_id)
                    b (ground arith) in
                met p leaves b b' m x (ground arith) (match_loop-Run fuel next b1 r)
          ]
        ]
      ]
    ]
