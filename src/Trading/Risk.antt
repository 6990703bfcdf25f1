-- ===== src/Trading/Risk.antt =====
-- trading/strategy/risk_manager.h, `RiskInfo::checkPreTradeRisk`, over the position of
-- trading/strategy/position_keeper.h. A `double` is a value of a parameter type with its `<`.
use low_latency_electronic_t.Prelude.{
  ℕ, ◌+◌, ◌-◌, ◌^◌, ◌≤◌, ◌<◌, ◌≡◌, ◌≢◌, ◌↔◌, Bool, false, ◌&&◌, Option, none, some, ℤ, pos_part,
  neg_part, leb, pos, negsuc, ◌+ℤ◌, ◌-ℤ◌, nat_abs, ltb, ltb_ℤ, if◌then◌else◌, arith,
}
use low_latency_electronic_t.Common.Types.{Side}

pub data RiskCheckResult : Type 0 where
  invalid order_too_large position_too_large loss_too_large allowed : RiskCheckResult

-- `static_cast<int32_t>(q)` of a `uint32_t`.
unfoldable pub to_i32 : ℕ → ℤ
to_i32 q = if ltb q (2 ^ 31) then pos q else negsuc (2 ^ 32 - q - 1)

-- `sideToValue(side) * v`.
unfoldable pub signed : Side → ℤ → ℤ
signed Side.invalid v = pos 0
signed Side.buy v = v
signed Side.sell v = pos 0 -ℤ v
signed Side.max v = v +ℤ v

-- `RiskInfo` with the fields of `PositionInfo` and `RiskCfg` that the check reads.
pub record RiskInfo (F : Type 0) : Type 0 where
  pub position : ℤ
  pub total_pnl : F
  pub max_order_size : ℕ
  pub max_position : ℕ
  pub max_loss : F

-- Whether a number is in the range of `int32_t`.
abbrev pub fits_i32 : ℤ → Bool
fits_i32 z = ltb (pos_part z) (2 ^ 31) && leb (neg_part z) (2 ^ 31)

module _ {F : Type 0} (less : F → F → Bool) where
  -- The position after a fill of the whole order, in the order of the code's tests. `none` is an
  -- overflow of the `int32_t` arithmetic, of the product, the sum or the absolute value.
  unfoldable pub check_pre_trade_risk : RiskInfo F → Side → ℕ → Option RiskCheckResult
  unfolding to_i32 signed
  check_pre_trade_risk r side qty =
      let change = signed side (to_i32 qty) in
      let after = r.position +ℤ change in
      if ltb r.max_order_size qty
      then some RiskCheckResult.order_too_large
      else (if fits_i32 change && ltb (nat_abs after) (2 ^ 31)
          then (if ltb_ℤ (to_i32 r.max_position) (pos (nat_abs after))
              then some RiskCheckResult.position_too_large
              else (if less r.total_pnl r.max_loss
                  then some RiskCheckResult.loss_too_large
                  else some RiskCheckResult.allowed))
          else none)

  -- The position after an order of this side is filled.
  abbrev pub position_after : RiskInfo F → Side → ℕ → ℤ
  position_after r Side.buy qty = r.position +ℤ pos qty
  position_after r Side.sell qty = r.position -ℤ pos qty
  position_after r _ qty = r.position

  -- What the limits allow.
  abbrev pub Within : RiskInfo F → Side → ℕ → Type 0
  Within r side qty =
      (qty ≤ r.max_order_size)
      × (nat_abs (position_after r side qty) ≤ r.max_position)
      × (less r.total_pnl r.max_loss ≡ false)

  -- If no position within the reach of the limit on orders leaves the range of int32_t, and the
  -- limit on positions is in it too, an order to buy or to sell is allowed exactly if it is not
  -- larger than the limit on orders, the position after its fill is no larger than the limit on
  -- positions on either side of zero, and the profit is not below the limit on losses; and the
  -- check of any order returns.
  pub check-allowed :
      (r : RiskInfo F) (qty : ℕ)
      → nat_abs r.position + r.max_order_size < 2 ^ 31
      → r.max_position < 2 ^ 31
      → ((check_pre_trade_risk r Side.buy qty ≡ some RiskCheckResult.allowed)
          ↔ Within r Side.buy qty)
        × ((check_pre_trade_risk r Side.sell qty ≡ some RiskCheckResult.allowed)
            ↔ Within r Side.sell qty)
        × (check_pre_trade_risk r Side.buy qty ≢ none)
        × (check_pre_trade_risk r Side.sell qty ≢ none)
  unfolding check_pre_trade_risk
  check-allowed r qty h k = (
    (ground arith, ground arith),
    (ground arith, ground arith),
    λ e. ground arith,
    λ e. ground arith,
  )
