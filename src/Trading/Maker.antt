-- ===== src/Trading/Maker.antt =====
-- trading/strategy/market_maker.cpp and liquidity_taker.cpp: what the two strategies ask of the
-- order manager. The features, the position and the time since the start are arguments.
pub mod Passive
use low_latency_electronic_t.Prelude.{
  ℕ, ◌≡◌, ◌⊎◌, ℤ, pos, ◌-ℤ◌, ◌+ℤ◌, ◌<ℤ◌, ltb_ℤ, beq_ℤ, Bool, true, false, not, ◌&&◌, ◌||◌, Option,
  none, some, ltb, if◌then◌else◌,
}
use low_latency_electronic_t.Common.Types.{Side, me_max_tickers, price_invalid}
use low_latency_electronic_t.Trading.Double.{Double}
use low_latency_electronic_t.Trading.MarketBook.Book.{Bbo}
use low_latency_electronic_t.Trading.OrderManager.{OrderManager, move_orders, cancel_orders}
use low_latency_electronic_t.Trading.Risk.{RiskCheckResult}

-- What the feature engine answers.
pub record Features (W : Type 0) : Type 0 where
  pub mkt_price : W
  pub volatility : W
  pub volatility_long : W
  pub ofi : W
  pub vpin : W
  pub agg_trade_qty_ratio : W

-- The fields of `TradeEngineCfg` that the strategies read.
pub record TradeEngineCfg (W : Type 0) : Type 0 where
  pub clip : ℕ
  pub threshold : W
  pub max_position : ℕ
  pub use_as : Bool
  pub gamma : W
  pub kappa : W
  pub session_hours : W
  pub use_ofi : Bool
  pub beta_ofi : W
  pub use_adaptive_clip : Bool
  pub sigma_ref : W
  pub spread_widen_ofi : W
  pub use_killswitch : Bool
  pub killswitch_ofi : W
  pub killswitch_micro_ticks : W
  pub use_regime_gamma : Bool
  pub regime_gamma_scale : W
  pub use_vpin : Bool
  pub vpin_threshold : W
  pub vpin_widen_mult : W
  pub vpin_kill_scale : W

pub record Quote : Type 0 where
  pub bid : ℤ
  pub ask : ℤ
  pub clip : ℕ

module _ {W : Type 0} (d : Double W) where
  abbrev int : ℕ → W
  int n = d.of_int (pos n)

  -- `std::max` and `std::clamp`.
  abbrev larger : W → W → W
  larger x y = if d.less x y then y else x

  abbrev clamp : W → W → W → W
  clamp x lo hi = if d.less x lo then lo else (if d.less hi x then hi else x)

  -- `x != Feature_INVALID`: a comparison with a NaN, which no double is equal to.
  abbrev pub differs_from_invalid : W → Bool
  differs_from_invalid x = not (d.equal x d.nan)

  unfoldable pub vpin_toxic : TradeEngineCfg W → Features W → Bool
  vpin_toxic cfg f = cfg.use_vpin && d.equal f.vpin f.vpin && d.less cfg.vpin_threshold f.vpin

  -- The killswitch: informed flow, or a fast move of the fair price.
  unfoldable pub kills : TradeEngineCfg W → Features W → Bbo → Bool
  unfolding vpin_toxic
  kills cfg f bbo =
      let scale = λ (x : W). if vpin_toxic cfg f then d.times x cfg.vpin_kill_scale else x in
      let mid = d.times (d.dec (pos 5) 1) (d.of_int (bbo.bid_price +ℤ bbo.ask_price)) in
      cfg.use_killswitch
      && (d.less (scale cfg.killswitch_ofi) (d.absolute f.ofi)
          || d.less (scale cfg.killswitch_micro_ticks) (d.absolute (d.minus f.mkt_price mid)))

  unfoldable pub as_ready : TradeEngineCfg W → Features W → Bool
  as_ready cfg f = cfg.use_as && differs_from_invalid f.volatility && d.less (int 0) f.volatility

  -- The risk aversion, larger in a volatile regime.
  unfoldable pub gamma_of : TradeEngineCfg W → Features W → W
  gamma_of cfg f =
      let scale = cfg.regime_gamma_scale in
      if cfg.use_regime_gamma
        && d.less (int 1) scale
        && differs_from_invalid f.volatility_long
        && d.less (int 0) f.volatility_long
      then d.times cfg.gamma
          (clamp (d.over f.volatility f.volatility_long) (d.over (int 1) scale) scale)
      else cfg.gamma

  -- The rest of the session, as a part of it.
  unfoldable pub tau_of : TradeEngineCfg W → ℕ → W
  tau_of cfg elapsed_ns =
      let session_ns = d.times (d.times cfg.session_hours (int 3600)) (int 1000000000) in
      larger (d.dec (pos 1) 3) (d.over (d.minus session_ns (int elapsed_ns)) session_ns)

  -- The size of the quotes near the limit of the position.
  unfoldable pub clip_of : TradeEngineCfg W → Features W → W → ℕ
  clip_of cfg f q =
      let room = larger (int 0) (d.minus (int 1) (d.over (d.absolute q) (int cfg.max_position))) in
      let scale = clamp (d.over cfg.sigma_ref f.volatility) (d.dec (pos 5) 1) (d.dec (pos 15) 1) in
      let scaled = d.round (d.times (d.times (int cfg.clip) room) scale) in
      if cfg.use_adaptive_clip && ltb 0 cfg.max_position
      then d.to_qty (larger (int 1) scaled)
      else cfg.clip

  -- The two prices, kept from crossing the book.
  unfoldable pub passive : ℤ → ℤ → ℕ → Bbo → Quote
  passive bid ask clip bbo = record {
    bid = if ltb_ℤ bid bbo.ask_price then bid else bbo.ask_price -ℤ pos 1;
    ask = if ltb_ℤ bbo.bid_price ask then ask else bbo.bid_price +ℤ pos 1;
    clip = clip;
  }

  -- The two prices of Avellaneda and Stoikov.
  unfoldable pub as_prices : TradeEngineCfg W → Features W → ℤ → ℕ → ℤ × ℤ
  unfolding vpin_toxic gamma_of tau_of
  as_prices cfg f position elapsed_ns =
      let q = d.of_int position in
      let kappa = larger (d.dec (pos 1) 6) cfg.kappa in
      let gamma = gamma_of cfg f in
      let sigma = f.volatility in
      let tau = tau_of cfg elapsed_ns in
      let fair =
        d.minus f.mkt_price (d.times (d.times (d.times (d.times q gamma) sigma) sigma) tau) in
      let reservation = if cfg.use_ofi then d.plus fair (d.times cfg.beta_ofi f.ofi) else fair in
      let spread =
        d.plus (d.times (d.times (d.times gamma sigma) sigma) tau)
          (d.times (d.over (int 2) gamma) (d.log1p (d.over gamma kappa))) in
      let ofi = if cfg.use_ofi then f.ofi else int 0 in
      let widen =
        if vpin_toxic cfg f
        then d.times cfg.spread_widen_ofi cfg.vpin_widen_mult
        else cfg.spread_widen_ofi in
      let bid_widen = d.times widen (larger (d.negate ofi) (int 0)) in
      let ask_widen = d.times widen (larger ofi (int 0)) in
      let bid =
        d.to_price
          (d.floor (d.minus (d.minus reservation (d.times (d.dec (pos 5) 1) spread)) bid_widen)) in
      let ask =
        d.to_price
          (d.ceil (d.plus (d.plus reservation (d.times (d.dec (pos 5) 1) spread)) ask_widen)) in
      (bid, ask)

  unfoldable pub as_quote : TradeEngineCfg W → Features W → ℤ → ℕ → Bbo → Quote
  unfolding as_prices clip_of passive
  as_quote cfg f position elapsed_ns bbo =
      let prices = as_prices cfg f position elapsed_ns in
      passive prices.0 prices.1 (clip_of cfg f (d.of_int position)) bbo

  -- The quote before the volatility is known: at the best prices, or one tick off them.
  unfoldable pub threshold_quote : TradeEngineCfg W → Features W → Bbo → Quote
  threshold_quote cfg f bbo = record {
    bid =
        bbo.bid_price
        -ℤ (if d.at_least (d.minus f.mkt_price (d.of_int bbo.bid_price)) cfg.threshold
            then pos 0
            else pos 1);
    ask =
        bbo.ask_price
        +ℤ (if d.at_least (d.minus (d.of_int bbo.ask_price) f.mkt_price) cfg.threshold
            then pos 0
            else pos 1);
    clip = cfg.clip;
  }

  -- Both best prices are there.
  abbrev pub both_sides : Bbo → Bool
  both_sides bbo =
      not (beq_ℤ bbo.bid_price price_invalid) && not (beq_ℤ bbo.ask_price price_invalid)

  module _ (check : ℕ → Side → ℕ → RiskCheckResult) (cfgs : ℕ → TradeEngineCfg W) where
    -- `MarketMaker::onOrderBookUpdate`; the configuration is read with `at`.
    unfoldable pub on_order_book_update :
        ℕ → Bbo → Features W → ℤ → ℕ → OrderManager → Option OrderManager
    unfolding kills as_ready as_quote threshold_quote cancel_orders move_orders
    on_order_book_update ticker_id bbo f position elapsed_ns m =
        let cfg = cfgs ticker_id in
        let quote =
          if as_ready cfg f
          then as_quote cfg f position elapsed_ns bbo
          else threshold_quote cfg f bbo in
        if both_sides bbo && differs_from_invalid f.mkt_price
        then (if ltb ticker_id me_max_tickers
            then (if kills cfg f bbo
                then cancel_orders ticker_id m
                else move_orders check ticker_id quote.bid quote.ask quote.clip m)
            else none)
        else some m

    -- `LiquidityTaker::onTradeUpdate` for a trade on the side `side`.
    unfoldable pub taker_on_trade_update :
        ℕ → Side → Bbo → Features W → OrderManager → Option OrderManager
    unfolding move_orders
    taker_on_trade_update ticker_id side bbo f m =
        let cfg = cfgs ticker_id in
        let buy = move_orders check ticker_id bbo.ask_price price_invalid cfg.clip m in
        let sell = move_orders check ticker_id price_invalid bbo.bid_price cfg.clip m in
        if both_sides bbo && differs_from_invalid f.agg_trade_qty_ratio
        then (if ltb ticker_id me_max_tickers
            then (if d.at_least f.agg_trade_qty_ratio cfg.threshold
                then elim side [ Side.buy ↦ buy | _ ↦ sell ]
                else some m)
            else none)
        else some m
