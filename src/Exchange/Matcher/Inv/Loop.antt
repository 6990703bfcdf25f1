-- ===== src/Exchange/Matcher/Inv/Loop.antt =====
-- The loop of `checkForMatch` of exchange/matcher/me_order_book.cpp: it ends and keeps the
-- invariant, and meets the orders by price and time.
use low_latency_electronic_t.Prelude.{
  ℕ, zero, suc, ◌+◌, ◌-◌, ◌<◌, ◌≡◌, ◌≢◌, ◌⊎◌, ◌∙◌, inl, inr, refl, false, Option, some, ◌==◌, arith,
  Option-cases, Bool-cases, ℤ, min,
}
use low_latency_electronic_t.Common.Types.{Side}
use low_latency_electronic_t.Exchange.Matcher.Book.{◌>>=◌, MeOrderBook, order_at, level_at, best}
use low_latency_electronic_t.Exchange.Matcher.Match.{match_order, match_loop, no_cross, opposite}
use low_latency_electronic_t.Exchange.Matcher.Trades.{match_loop-Done}
use low_latency_electronic_t.Exchange.Matcher.Inv.{unwrap}
use low_latency_electronic_t.Exchange.Matcher.Inv.Forget.{>>=-step}
use low_latency_electronic_t.Exchange.Matcher.Inv.Front.{IsFront, best-used, first-used}
use low_latency_electronic_t.Exchange.Matcher.Inv.Fill.{
  BookOk, Later, Later-refl, Later-trans, live_count, match_order-Filled,
}

pub opposite-cases : (s : Side) → (opposite s ≡ Side.buy) ⊎ (opposite s ≡ Side.sell)
opposite-cases Side.buy = inr refl
opposite-cases Side.sell = inl refl
opposite-cases Side.invalid = inl refl
opposite-cases Side.max = inl refl

-- What the loop makes of a book.
abbrev pub Returns : Option (ℕ × MeOrderBook) → MeOrderBook → Type 0
Returns r b = (left : ℕ) × (b' : MeOrderBook) × (r ≡ some (left, b')) × BookOk b' × Later b b'

module _ (client_id client_order_id ticker_id : ℕ) (side : Side) (price : ℤ) (moid : ℕ) where
  -- One pass of the loop while something is left and the front order crosses.
  pub match_loop-pass :
      (fuel leaves p : ℕ) (b : MeOrderBook)
      → leaves ≢ 0
      → IsFront (opposite side) p b
      → no_cross side price (order_at b p).price ≡ false
      → match_loop (suc fuel) client_id client_order_id ticker_id side price moid leaves b
        ≡ (match_order ticker_id client_id side client_order_id moid p leaves
              >>= match_loop fuel client_id client_order_id ticker_id side price moid)
            b
  unfolding match_loop
  match_loop-pass fuel leaves p b z (l, h, f) x = ground arith

  pub match_loop-Returns :
      (fuel leaves : ℕ) (b : MeOrderBook)
      → BookOk b
      → ((leaves ≡ 0) × (0 < fuel)) ⊎ (live_count b + 1 < fuel)
      → Returns (match_loop fuel client_id client_order_id ticker_id side price moid leaves b) b
  unfolding match_loop
  match_loop-Returns zero leaves b ok f = absurd (ground arith)
  match_loop-Returns (suc fuel) leaves b ok f = elim (Bool-cases (leaves == 0)) [
    | inl z ↦ (
      leaves,
      b,
      match_loop-Done client_id client_order_id ticker_id side price moid fuel leaves b
          (inl (ground arith)),
      ok,
      Later-refl b,
    )
    | inr z ↦ elim (Option-cases (best (opposite side) b)) [
      | inl h ↦ (
        leaves,
        b,
        match_loop-Done client_id client_order_id ticker_id side price moid fuel leaves b
            (inr (inl h)),
        ok,
        Later-refl b,
      )
      | inr (l, h) ↦
          let (lu, _) = best-used b ok.inv (opposite side) l (opposite-cases side) h in
          let first = (ok.inv.level l lu).first in
          let p = unwrap (level_at b l).first_me_order in
          let (u, _, _) = first-used b ok.inv l p lu first in
          elim (Bool-cases (no_cross side price (order_at b p).price)) [
            | inl x ↦ (
              leaves,
              b,
              match_loop-Done client_id client_order_id ticker_id side price moid fuel leaves b
                  (inr (inr (l, p, h, first, x))),
              ok,
              Later-refl b,
            )
            | inr x ↦
                let (b1, e, filled) =
                  match_order-Filled ticker_id client_id side client_order_id moid p leaves b ok
                    u in
                let next = leaves - min leaves (order_at b p).qty in
                let (left, b', rest, ok', later) =
                  match_loop-Returns fuel next b1 filled.ok (ground (arith, filled.shrinks, f)) in
                (
                  left,
                  b',
                  match_loop-pass fuel leaves p b (ground arith) (l, h, first) x
                      ∙ >>=-step
                          (match_order ticker_id client_id side client_order_id moid p leaves)
                          (match_loop fuel client_id client_order_id ticker_id side price moid) b e
                      ∙ rest,
                  ok',
                  Later-trans b b1 b' filled.later later,
                )
          ]
    ]
  ]
