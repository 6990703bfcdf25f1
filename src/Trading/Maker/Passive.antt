-- ===== src/Trading/Maker/Passive.antt =====
-- What trading/strategy/market_maker.cpp sends, whatever the arithmetic of the `double`s is.
use low_latency_electronic_t.Prelude.{
  subst, ℕ, ◌+◌, ◌<◌, ◌≡◌, ◌⊎◌, refl, inl, inr, ℤ, pos, pos_part, neg_part, sub_ℕ-parts, ◌-ℤ◌, ◌+ℤ◌,
  ◌<ℤ◌, ltb_ℤ, Bool, true, false, ◌&&◌, Option, some, none, ltb, if◌then◌else◌, arith, Bool-cases,
}
use low_latency_electronic_t.Common.Types.{Side, me_max_tickers}
use low_latency_electronic_t.Trading.Double.{Double}
use low_latency_electronic_t.Trading.MarketBook.Book.{Bbo}
use low_latency_electronic_t.Trading.OrderManager.{OrderManager, move_orders, cancel_orders}
use low_latency_electronic_t.Trading.Risk.{RiskCheckResult}
use low_latency_electronic_t.Trading.Maker.{
  Features, TradeEngineCfg, Quote, passive, as_prices, clip_of, as_quote, as_ready, threshold_quote,
  both_sides, differs_from_invalid, kills, on_order_book_update,
}

-- Neither side of the quote reaches the best price of the other side of the book.
abbrev pub IsPassive : Quote → Bbo → Type 0
IsPassive q bbo = (q.bid <ℤ bbo.ask_price) × (bbo.bid_price <ℤ q.ask)

below : (a : ℤ) → (a -ℤ pos 1) <ℤ a
below a = omega (arith, sub_ℕ-parts (pos_part a + 0) (neg_part a + 1))

above : (a : ℤ) → a <ℤ (a +ℤ pos 1)
above a = omega (arith, sub_ℕ-parts (pos_part a + 1) (neg_part a + 0))

lower : (c : Bool) (a b : ℤ) → a <ℤ b → (a -ℤ (if c then pos 0 else pos 1)) <ℤ b
lower true a b h = omega (arith, h, sub_ℕ-parts (pos_part a + 0) (neg_part a + 0))
lower false a b h = omega (arith, h, sub_ℕ-parts (pos_part a + 0) (neg_part a + 1))

higher : (c : Bool) (a b : ℤ) → a <ℤ b → a <ℤ (b +ℤ (if c then pos 0 else pos 1))
higher true a b h = omega (arith, h, sub_ℕ-parts (pos_part b + 0) (neg_part b + 0))
higher false a b h = omega (arith, h, sub_ℕ-parts (pos_part b + 1) (neg_part b + 0))

module _ {W : Type 0} (d : Double W) where
  passive-IsPassive :
      (bid ask : ℤ) (clip : ℕ) (bbo : Bbo) → IsPassive (passive d bid ask clip bbo) bbo
  unfolding passive
  passive-IsPassive bid ask clip bbo = (
    elim (Bool-cases (ltb_ℤ bid bbo.ask_price)) [
      | inl h ↦ simp (h) (ground arith)
      | inr h ↦ simp (h) (below bbo.ask_price)
    ],
    elim (Bool-cases (ltb_ℤ bbo.bid_price ask)) [
      | inl h ↦ simp (h) (ground arith)
      | inr h ↦ simp (h) (above bbo.bid_price)
    ],
  )

  as_quote-IsPassive :
      (cfg : TradeEngineCfg W) (f : Features W) (position : ℤ) (elapsed_ns : ℕ) (bbo : Bbo)
      → IsPassive (as_quote d cfg f position elapsed_ns bbo) bbo
  unfolding as_quote
  as_quote-IsPassive cfg f position elapsed_ns bbo =
      let prices = as_prices d cfg f position elapsed_ns in
      passive-IsPassive prices.0 prices.1 (clip_of d cfg f (d.of_int position)) bbo

  threshold_quote-IsPassive :
      (cfg : TradeEngineCfg W) (f : Features W) (bbo : Bbo)
      → bbo.bid_price <ℤ bbo.ask_price
      → IsPassive (threshold_quote d cfg f bbo) bbo
  unfolding threshold_quote
  threshold_quote-IsPassive cfg f bbo h = (
    lower (d.at_least (d.minus f.mkt_price (d.of_int bbo.bid_price)) cfg.threshold) bbo.bid_price
        bbo.ask_price h,
    higher (d.at_least (d.minus (d.of_int bbo.ask_price) f.mkt_price) cfg.threshold) bbo.bid_price
        bbo.ask_price h,
  )

  -- What a call asks of the order manager: nothing if a price is missing, the cancellation of both
  -- orders if the killswitch is on, a passive quote otherwise.
  abbrev pub Asks :
      (ℕ → Side → ℕ → RiskCheckResult)
      → ℕ
      → Bbo
      → OrderManager
      → Bool
      → Bool
      → Option OrderManager
      → Type 0
  Asks check ticker_id bbo m seen kill r =
      ((seen ≡ false) × (r ≡ some m))
      ⊎ ((seen ≡ true) × (kill ≡ true) × (r ≡ cancel_orders ticker_id m))
      ⊎ ((seen ≡ true)
          × (kill ≡ false)
          × ((q : Quote) × IsPassive q bbo
              × (r ≡ move_orders check ticker_id q.bid q.ask q.clip m)))

  -- The answers of the guards, in the order of the code.
  guarded :
      (check : ℕ → Side → ℕ → RiskCheckResult) (ticker_id : ℕ) (bbo : Bbo) (m : OrderManager)
      (q : Quote) (g t k : Bool)
      → t ≡ true
      → IsPassive q bbo
      → Asks check ticker_id bbo m g k (
          if g
          then (if t
              then (if k
                  then cancel_orders ticker_id m
                  else move_orders check ticker_id q.bid q.ask q.clip m)
              else none)
          else some m)
  guarded check ticker_id bbo m q false t k h p = inl (refl, refl)
  guarded check ticker_id bbo m q true true true h p = inr (inl (refl, refl, refl))
  guarded check ticker_id bbo m q true true false h p = inr (inr (refl, refl, (q, p, refl)))
  guarded check ticker_id bbo m q true false k h p = absurd (ground arith)

  quote-IsPassive :
      (c : Bool) (a t : Quote) (bbo : Bbo)
      → IsPassive a bbo
      → IsPassive t bbo
      → IsPassive (if c then a else t) bbo
  quote-IsPassive true a t bbo h k = h
  quote-IsPassive false a t bbo h k = k

  -- `x != Feature_INVALID` holds of every number, if no number is equal to the NaN.
  differs_from_invalid-true : (x : W) → d.equal x d.nan ≡ false → differs_from_invalid d x ≡ true
  differs_from_invalid-true x h = ground arith

  seen-both_sides :
      (x : W) (bbo : Bbo)
      → d.equal x d.nan ≡ false
      → (both_sides d bbo && differs_from_invalid d x) ≡ both_sides d bbo
  seen-both_sides x bbo h = ground (arith, differs_from_invalid-true x h)

  -- If no double is equal to the NaN, as IEEE 754 has it: for a ticker in range and a book whose
  -- best bid is below its best ask, onOrderBookUpdate does nothing exactly if a best price is
  -- missing; else it cancels both orders if the killswitch is on, and otherwise moves them to a bid
  -- below the best ask and an ask above the best bid. The fair price is not among the conditions:
  -- its test against the NaN always passes, so a missing fair price does not stop the quotes.
  pub on_order_book_update-IsPassive :
      (check : ℕ → Side → ℕ → RiskCheckResult) (cfgs : ℕ → TradeEngineCfg W) (ticker_id : ℕ)
      (bbo : Bbo) (f : Features W) (position : ℤ) (elapsed_ns : ℕ) (m : OrderManager)
      → ((x : W) → d.equal x d.nan ≡ false)
      → ticker_id < me_max_tickers
      → bbo.bid_price <ℤ bbo.ask_price
      → Asks check ticker_id bbo m
          (both_sides d bbo)
          (kills d (cfgs ticker_id) f bbo)
          (on_order_book_update d check cfgs ticker_id bbo f position elapsed_ns m)
  unfolding on_order_book_update
  on_order_book_update-IsPassive check cfgs ticker_id bbo f position elapsed_ns m n h x =
      let cfg = cfgs ticker_id in
      let a = as_quote d cfg f position elapsed_ns bbo in
      let t = threshold_quote d cfg f bbo in
      let r = on_order_book_update d check cfgs ticker_id bbo f position elapsed_ns m in
      subst (λ g. Asks check ticker_id bbo m g (kills d cfg f bbo) r)
        (seen-both_sides f.mkt_price bbo (n f.mkt_price))
        (guarded check ticker_id bbo m (if as_ready d cfg f then a else t)
          (both_sides d bbo && differs_from_invalid d f.mkt_price) (ltb ticker_id me_max_tickers)
          (kills d cfg f bbo) (ground arith)
          (quote-IsPassive (as_ready d cfg f) a t bbo
            (as_quote-IsPassive cfg f position elapsed_ns bbo)
            (threshold_quote-IsPassive cfg f bbo x)))
