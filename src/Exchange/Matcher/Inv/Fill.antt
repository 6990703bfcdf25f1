-- ===== src/Exchange/Matcher/Inv/Fill.antt =====
-- `match` of exchange/matcher/me_order_book.cpp returns and keeps the invariant.
use low_latency_electronic_t.Prelude.{
  ℕ, suc, ◌-◌, ◌≡◌, ◌≢◌, ◌⊎◌, ◌∙◌, refl, inl, inr, true, false, some, ◌==◌, min, arith, Bool-cases,
  count, count-less, count-same, ◌<ℤ◌, List, ◌++◌, ◌∷◌, [], ap,
}
use low_latency_electronic_t.Common.Types.{Side}
use low_latency_electronic_t.Exchange.Matcher.Book.{◌>>◌, pure, Sent, market, MeOrderBook, order_at}
use low_latency_electronic_t.Exchange.Matcher.Fills.{settled, rest_of}
use low_latency_electronic_t.Exchange.Matcher.Match.{match_order, settle_passive}
use low_latency_electronic_t.Exchange.Matcher.Orders.{remove_order}
use low_latency_electronic_t.Exchange.Matcher.Inv.Forget.{>>=-step}
use low_latency_electronic_t.Exchange.Matcher.Inv.Removal.{remove_order-Without}
use low_latency_electronic_t.Exchange.Matcher.Inv.Touch.{
  renewed, renewed-Inv, with_qty, with_qty-Inv,
}
use low_latency_electronic_t.Exchange.Matcher.Inv.{in_use, Inv}

-- Something is left of each order on the book.
abbrev pub Unfilled : MeOrderBook → Type 0
Unfilled b = (p : ℕ) → in_use b.order_pool p ≡ true → (order_at b p).qty ≢ 0

-- How many orders are on the book.
abbrev pub live_count : MeOrderBook → ℕ
live_count b = count (in_use b.order_pool) b.order_pool.size

-- No order to buy has the price of an order to sell, or a higher one.
abbrev pub IsUncrossed : MeOrderBook → Type 0
IsUncrossed b =
    (p q : ℕ)
    → in_use b.order_pool p ≡ true
    → in_use b.order_pool q ≡ true
    → (order_at b p).side ≡ Side.buy
    → (order_at b q).side ≡ Side.sell
    → (order_at b p).price <ℤ (order_at b q).price

-- A book between two calls: the invariant holds, and something is left of each order.
pub record BookOk (b : MeOrderBook) : Type 0 where
  pub inv : Inv b
  pub unfilled : Unfilled b

-- What the book `b'` keeps of the book `b` while an aggressor is matched: its room, and the data
-- of the orders that are still there, but for their quantities.
pub record Later (b b' : MeOrderBook) : Type 0 where
  pub size : b'.order_pool.size ≡ b.order_pool.size
  pub level_size : b'.orders_at_price_pool.size ≡ b.orders_at_price_pool.size
  pub next_id : b'.next_market_order_id ≡ b.next_market_order_id
  pub still : (q : ℕ) → in_use b'.order_pool q ≡ true → in_use b.order_pool q ≡ true
  pub still_level :
      (l : ℕ) → in_use b'.orders_at_price_pool l ≡ true → in_use b.orders_at_price_pool l ≡ true
  pub same_order :
      (q : ℕ)
      → in_use b'.order_pool q ≡ true
      → ((order_at b' q).side ≡ (order_at b q).side)
        × ((order_at b' q).price ≡ (order_at b q).price)
        × ((order_at b' q).priority ≡ (order_at b q).priority)

pub Later-refl : (b : MeOrderBook) → Later b b
Later-refl b = record {
  size = refl;
  level_size = refl;
  next_id = refl;
  still = λ q h. h;
  still_level = λ l h. h;
  same_order = λ q h. (refl, refl, refl);
}

pub Later-trans : (a b c : MeOrderBook) → Later a b → Later b c → Later a c
Later-trans a b c f g = record {
  size = g.size ∙ f.size;
  level_size = g.level_size ∙ f.level_size;
  next_id = g.next_id ∙ f.next_id;
  still = λ q h. f.still q (g.still q h);
  still_level = λ l h. f.still_level l (g.still_level l h);
  same_order = λ q h.
      let (x, y, z) = f.same_order q (g.still q h) in
      let (x', y', z') = g.same_order q h in (x' ∙ x, y' ∙ y, z' ∙ z);
}

-- One fill of an aggressor with `leaves` that leaves it with `left`: it is filled, or an order has
-- left the book.
pub record Filled (left : ℕ) (b b' : MeOrderBook) : Type 0 where
  pub ok : BookOk b'
  pub later : Later b b'
  pub shrinks : (left ≡ 0) ⊎ (suc (live_count b') ≡ live_count b)

-- The book once the update on the order `p` has been sent.
abbrev told : ℕ → ℕ → ℕ → MeOrderBook → MeOrderBook
told ticker_id order_qty p b =
    renewed b.next_market_order_id
      (b.sent ++ market (settled ticker_id order_qty (order_at b p)) ∷ []) b

settle_passive-empty :
    (ticker_id order_qty p : ℕ) (b : MeOrderBook)
    → ((order_at b p).qty == 0) ≡ true
    → settle_passive ticker_id order_qty p b ≡ remove_order p (told ticker_id order_qty p b)
unfolding settle_passive
settle_passive-empty ticker_id order_qty p b z = rw z refl

settle_passive-rest :
    (ticker_id order_qty p : ℕ) (b : MeOrderBook)
    → ((order_at b p).qty == 0) ≡ false
    → settle_passive ticker_id order_qty p b ≡ some (tt, told ticker_id order_qty p b)
unfolding settle_passive
settle_passive-rest ticker_id order_qty p b z = rw z refl

settle_passive-Filled :
    (ticker_id order_qty p left : ℕ) (b : MeOrderBook)
    → Inv b
    → ((q : ℕ) → in_use b.order_pool q ≡ true → q ≢ p → (order_at b q).qty ≢ 0)
    → in_use b.order_pool p ≡ true
    → (left ≡ 0) ⊎ ((order_at b p).qty ≡ 0)
    → (b' : MeOrderBook) × (settle_passive ticker_id order_qty p b ≡ some (tt, b'))
      × Filled left b b'
settle_passive-Filled ticker_id order_qty p left b inv others u fills =
    let told-Inv = renewed-Inv b.next_market_order_id _ b (omega arith) inv in
    elim (Bool-cases ((order_at b p).qty == 0)) [
      | inl z ↦
          let (b', removed, w) = remove_order-Without p (told ticker_id order_qty p b) told-Inv u in
          (
            b',
            settle_passive-empty ticker_id order_qty p b z ∙ removed,
            record {
              ok = record {
                inv = w.inv;
                unfilled = λ q h. ground (arith, w.used q, w.same q, others q);
              };
              later = record {
                size = w.size;
                level_size = w.level_size;
                next_id = w.next_id;
                still = λ q h. ground (arith, w.used q);
                still_level = w.levels;
                same_order = λ q h. ground (arith, w.used q, w.same q);
              };
              shrinks = inr (
                  ap (λ n. suc (count (in_use b'.order_pool) n)) w.size
                  ∙ count-less (in_use b.order_pool) (in_use b'.order_pool) p b.order_pool.size
                      w.used u (inv.order p u).in_pool);
            },
          )
      | inr z ↦ (
        told ticker_id order_qty p b,
        settle_passive-rest ticker_id order_qty p b z,
        record {
          ok = record { inv = told-Inv; unfilled = λ q h. ground (arith, others q h) };
          later = record {
            size = refl;
            level_size = refl;
            next_id = refl;
            still = λ q h. h;
            still_level = λ l h. h;
            same_order = λ q h. (refl, refl, refl);
          };
          shrinks = ground arith;
        },
      )
    ]

-- The end of a fill, once the quantity of the passive order is reduced and the messages `m` are
-- sent.
settled-Filled :
    (ticker_id p leaves : ℕ) (b : MeOrderBook) (m : List Sent)
    → BookOk b
    → in_use b.order_pool p ≡ true
    → (b' : MeOrderBook) × ((settle_passive ticker_id (order_at b p).qty p
            >> pure (leaves - min leaves (order_at b p).qty))
          (renewed b.next_market_order_id m (with_qty p (rest_of leaves (order_at b p)) b))
        ≡ some (leaves - min leaves (order_at b p).qty, b'))
      × Filled (leaves - min leaves (order_at b p).qty) b b'
settled-Filled ticker_id p leaves b m ok u =
    let left = leaves - min leaves (order_at b p).qty in
    let b1 = renewed b.next_market_order_id m (with_qty p (rest_of leaves (order_at b p)) b) in
    let b1-Inv =
      renewed-Inv b.next_market_order_id m _ (omega arith)
        (with_qty-Inv p (rest_of leaves (order_at b p)) b ok.inv) in
    let same : (q : ℕ) → in_use b1.order_pool q ≡ in_use b.order_pool q = λ q. ground arith in
    let (b', e, f) =
      settle_passive-Filled ticker_id (order_at b p).qty p left b1 b1-Inv
        (λ q h n. ground (arith, ok.unfilled q)) (same p ∙ u) (ground arith) in
    (
      b',
      >>=-step (settle_passive ticker_id (order_at b p).qty p) (λ _. pure left) b1 e,
      record {
        ok = f.ok;
        later = record {
          size = f.later.size;
          level_size = f.later.level_size;
          next_id = f.later.next_id;
          still = λ q h. ground (arith, f.later.still q, same q);
          still_level = f.later.still_level;
          same_order = λ q h. ground (arith, f.later.same_order q h);
        };
        shrinks = ground (
          arith,
          f.shrinks,
          count-same (in_use b.order_pool) (in_use b1.order_pool) b.order_pool.size (λ q _. same q),
        );
      },
    )

pub match_order-Filled :
    (ticker_id client_id : ℕ) (side : Side) (client_order_id market_order_id p leaves : ℕ)
    (b : MeOrderBook)
    → BookOk b
    → in_use b.order_pool p ≡ true
    → (b' : MeOrderBook) × (match_order ticker_id client_id side client_order_id market_order_id p
          leaves b
        ≡ some (leaves - min leaves (order_at b p).qty, b'))
      × Filled (leaves - min leaves (order_at b p).qty) b b'
unfolding match_order
match_order-Filled ticker_id client_id side client_order_id market_order_id p leaves b ok u =
    settled-Filled ticker_id p leaves b _ ok u
