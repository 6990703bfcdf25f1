-- ===== src/Exchange/Matcher/Inv/Cancel.antt =====
-- `cancel` of exchange/matcher/me_order_book.cpp returns and keeps the invariant.
use low_latency_electronic_t.Prelude.{
  ℕ, ◌<◌, ◌≡◌, refl, inl, inr, ap, false, Option, none, some, ptr_eq, if◌then◌else◌, arith,
  Option-cases, List, ◌++◌, ◌∷◌, [],
}
use low_latency_electronic_t.Common.Types.{me_max_order_ids}
use low_latency_electronic_t.Exchange.Matcher.Book.{Sent, response, market, MeOrderBook, order_at}
use low_latency_electronic_t.Exchange.Matcher.Orders.{remove_order}
use low_latency_electronic_t.Exchange.Matcher.Match.{cancel, find_order}
use low_latency_electronic_t.Exchange.Matcher.Cancels.{
  known, cancel-unknown, cancel_update, canceled,
}
use low_latency_electronic_t.Exchange.Matcher.Inv.{in_use}
use low_latency_electronic_t.Exchange.Matcher.Inv.Removal.{Without, remove_order-Without}
use low_latency_electronic_t.Exchange.Matcher.Inv.Touch.{renewed, renewed-Inv}
use low_latency_electronic_t.Exchange.Matcher.Inv.Fill.{BookOk, IsUncrossed}

-- What a cancel leaves: the invariant, no order for the ids, and every other order.
pub record Canceled (client_id order_id : ℕ) (b b' : MeOrderBook) : Type 0 where
  pub ok : BookOk b'
  pub forgotten : known client_id order_id b' ≡ none
  pub uncrossed : IsUncrossed b → IsUncrossed b'
  pub next_id : b'.next_market_order_id ≡ b.next_market_order_id
  pub used :
      (q : ℕ)
      → in_use b'.order_pool q
        ≡ (if ptr_eq (known client_id order_id b) (some q) then false else in_use b.order_pool q)

renewed-BookOk :
    (m : List Sent) (b : MeOrderBook) → BookOk b → BookOk (renewed b.next_market_order_id m b)
renewed-BookOk m b ok = record {
  inv = renewed-Inv b.next_market_order_id m b (omega arith) ok.inv;
  unfilled = ok.unfilled;
}

Without-BookOk : (p : ℕ) (b b' : MeOrderBook) → BookOk b → Without p b b' → BookOk b'
Without-BookOk p b b' ok w = record {
  inv = w.inv;
  unfilled = λ q h. ground (arith, w.used q, w.same q, ok.unfilled q);
}

-- What `cancel` does for a known order, once the order has left the book.
cancel-step :
    (client_id order_id ticker_id p : ℕ) (b b1 : MeOrderBook)
    → order_id < me_max_order_ids
    → known client_id order_id b ≡ some p
    → remove_order p b ≡ some (tt, b1)
    → cancel client_id order_id ticker_id b
      ≡ some (
        tt,
        renewed b1.next_market_order_id
            ((b1.sent ++ market (cancel_update ticker_id (order_at b p)) ∷ [])
              ++ response (canceled client_id order_id ticker_id (order_at b p)) ∷ [])
            b1,
      )
unfolding cancel find_order
cancel-step client_id order_id ticker_id p b b1 h k e = ground arith

-- On a book in order, `cancel` with an order id in range returns, whether the book knows an order
-- for the ids or not. It takes the order that the book knows off the book and no other, the book
-- knows no order for the ids afterwards, and it is in order, and uncrossed if it was before.
pub cancel-returns :
    (client_id order_id ticker_id : ℕ) (b : MeOrderBook)
    → order_id < me_max_order_ids
    → BookOk b
    → (b' : MeOrderBook) × (cancel client_id order_id ticker_id b ≡ some (tt, b'))
      × Canceled client_id order_id b b'
cancel-returns client_id order_id ticker_id b h ok =
    elim (Option-cases (known client_id order_id b)) [
      | inl k ↦ (
        _,
        cancel-unknown client_id order_id ticker_id b h k,
        record {
          ok = renewed-BookOk _ b ok;
          forgotten = k;
          uncrossed = λ u. u;
          next_id = refl;
          used = λ q. ground (arith, k);
        },
      )
      | inr (p, k) ↦
          let (u, c, o) = ok.inv.id_index client_id order_id p (ground (arith, k)) in
          let (b1, e, w) = remove_order-Without p b ok.inv u in
          let gone = ap (λ (f : ℕ → ℕ → Option ℕ). f client_id order_id) w.index in
          (
            _,
            cancel-step client_id order_id ticker_id p b b1 h k e,
            record {
              ok = renewed-BookOk _ b1 (Without-BookOk p b b1 ok w);
              forgotten = ground (arith, gone, c, o);
              uncrossed =
                  λ x i j ui uj. ground (arith, x i j, w.used i, w.used j, w.same i, w.same j);
              next_id = w.next_id;
              used = λ q. ground (arith, k, w.used q);
            },
          )
    ]
