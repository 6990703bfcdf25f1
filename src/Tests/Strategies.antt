-- ===== src/Tests/Strategies.antt =====
-- The position keeper and the market maker on whole numbers in place of doubles.
use low_latency_electronic_t.Prelude.{
  ℕ, ◌+◌, ◌*◌, ◌/◌, ◌%◌, ◌^◌, ◌≡◌, refl, inl, inr, ℤ, pos, negsuc, pos_part, neg_part, sub_ℕ, ◌+ℤ◌,
  ◌-ℤ◌, nat_abs, ltb_ℤ, beq_ℤ, not, ◌&&◌, true, false, Option, some, none, List, [], ◌∷◌, arith,
}
use low_latency_electronic_t.Common.Types.{Side}
use low_latency_electronic_t.Exchange.Messages.{MeClientResponse, ClientResponseType}
use low_latency_electronic_t.Trading.Double.{Double}
use low_latency_electronic_t.Trading.MarketBook.Book.{Bbo}
use low_latency_electronic_t.Trading.OrderManager.{init}
use low_latency_electronic_t.Trading.Risk.{RiskCheckResult}
use low_latency_electronic_t.Trading.Positions.{PositionInfo, PositionKeeper, keep_fills}
use low_latency_electronic_t.Trading.Positions.Sums.{InRange, filled, keep_fills-sums}
use low_latency_electronic_t.Trading.Maker.{
  Features, TradeEngineCfg, kills, on_order_book_update, both_sides,
}
use low_latency_electronic_t.Trading.Maker.Passive.{Asks, on_order_book_update-IsPassive}

abbrev product : ℤ → ℤ → ℤ
product a b =
    sub_ℕ (pos_part a * pos_part b + neg_part a * neg_part b)
      (pos_part a * neg_part b + neg_part a * pos_part b)

abbrev quotient : ℤ → ℤ → ℤ
quotient a b = sub_ℕ (pos_part a / nat_abs b) (neg_part a / nat_abs b)

-- A number that stands for the NaN.
abbrev not_a_number : ℤ
not_a_number = negsuc 999999

abbrev whole : Double ℤ
whole = record {
  of_int = λ a. a;
  plus = λ a b. a +ℤ b;
  minus = λ a b. a -ℤ b;
  times = product;
  over = quotient;
  equal = λ a b. beq_ℤ a b && not (beq_ℤ a not_a_number) && not (beq_ℤ b not_a_number);
  less = λ a b. ltb_ℤ a b;
  at_least = λ a b. not (ltb_ℤ a b);
  dec = λ a n. quotient a (pos (10 ^ n));
  nan = not_a_number;
  negate = λ a. pos 0 -ℤ a;
  absolute = λ a. pos (nat_abs a);
  floor = λ a. a;
  ceil = λ a. a;
  round = λ a. a;
  log1p = λ a. a;
  to_price = λ a. a;
  to_qty = pos_part;
}

abbrev fill : Side → ℤ → ℕ → MeClientResponse
fill side price qty = record {
  type = ClientResponseType.filled;
  client_id = 4;
  ticker_id = 1;
  client_order_id = 1;
  market_order_id = 9;
  side = side;
  price = price;
  exec_qty = qty;
  leaves_qty = 0;
}

abbrev flat : PositionInfo ℤ
flat = record {
  position = pos 0;
  real_pnl = pos 0;
  unreal_pnl = pos 0;
  total_pnl = pos 0;
  open_vwap = λ _. pos 0;
  volume = 0;
  bbo = none;
}

abbrev keeper : PositionKeeper whole
keeper = record { rebate_bps = λ _. pos 0; ticker_position = λ _. flat }

abbrev history : List MeClientResponse
history = fill Side.buy (pos 100) 10 ∷ fill Side.sell (pos 110) 25 ∷ []

-- The position, the profit and the open value of the short position after the two fills.
abbrev seen : Option (PositionKeeper whole) → (ℤ × ℤ) × ℤ
seen none = ((pos 0, pos 0), pos 0)
seen (some k) = (
  ((k.ticker_position 1).position, (k.ticker_position 1).real_pnl),
  (k.ticker_position 1).open_vwap 0,
)

turned : seen (keep_fills whole history keeper) ≡ ((negsuc 14, pos 100), pos 1650)
unfolding keep_fills
turned = refl

-- No fill moves the position of a ticker by more than 35.
history-InRange : InRange whole keeper history
history-InRange t = ground arith

keep_fills-sums_example :
    (k' : PositionKeeper whole) × (keep_fills whole history keeper ≡ some k')
    × ((t : ℕ)
        → ((k'.ticker_position t).position
            ≡ (keeper.ticker_position t).position
              +ℤ sub_ℕ (filled Side.buy t history) (filled Side.sell t history))
          × ((k'.ticker_position t).volume % 2 ^ 32
              ≡ ((keeper.ticker_position t).volume
                  + filled Side.buy t history
                  + filled Side.sell t history)
                % 2 ^ 32))
keep_fills-sums_example =
    keep_fills-sums whole history keeper
      ((omega arith, omega arith, inl refl), ((omega arith, omega arith, inr refl), tt))
      history-InRange

abbrev features : Features ℤ
features = record {
  mkt_price = pos 105;
  volatility = pos 2;
  volatility_long = pos 2;
  ofi = pos 1;
  vpin = pos 0;
  agg_trade_qty_ratio = pos 0;
}

abbrev cfg : TradeEngineCfg ℤ
cfg = record {
  clip = 10;
  threshold = pos 3;
  max_position = 100;
  use_as = true;
  gamma = pos 1;
  kappa = pos 2;
  session_hours = pos 8;
  use_ofi = false;
  beta_ofi = pos 0;
  use_adaptive_clip = false;
  sigma_ref = pos 1;
  spread_widen_ofi = pos 0;
  use_killswitch = true;
  killswitch_ofi = pos 5;
  killswitch_micro_ticks = pos 500;
  use_regime_gamma = false;
  regime_gamma_scale = pos 1;
  use_vpin = false;
  vpin_threshold = pos 1;
  vpin_widen_mult = pos 1;
  vpin_kill_scale = pos 1;
}

abbrev best_prices : Bbo
best_prices = record { bid_price = pos 100; ask_price = pos 110; bid_qty = 5; ask_qty = 6 }

abbrev allow : ℕ → Side → ℕ → RiskCheckResult
allow _ _ _ = RiskCheckResult.allowed

-- Nothing is equal to the NaN.
unequal : (x : ℤ) → whole.equal x not_a_number ≡ false
unequal x = ground arith

on_order_book_update-IsPassive_example :
    Asks whole allow 1 best_prices
      (init 4)
      (both_sides whole best_prices)
      (kills whole cfg features best_prices)
      (on_order_book_update whole allow (λ _. cfg) 1 best_prices features (pos 3) 0 (init 4))
on_order_book_update-IsPassive_example =
    on_order_book_update-IsPassive whole allow (λ _. cfg) 1 best_prices features (pos 3) 0 (init 4)
      unequal (omega arith) (omega arith)
