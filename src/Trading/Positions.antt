-- ===== src/Trading/Positions.antt =====
-- trading/strategy/position_keeper.h: the position, the profit and the volume of each ticker. A
-- fill whose `int32_t` arithmetic overflows has undefined behaviour: `none`. The products of a price
-- and a quantity, of 64 bits, are taken without their overflow.
pub mod Range
pub mod Booked
pub mod Sums
use low_latency_electronic_t.Prelude.{
  ℕ, ◌+◌, ◌*◌, ◌%◌, ◌^◌, ℤ, pos, pos_part, neg_part, sub_ℕ, ◌+ℤ◌, nat_abs, ltb_ℤ, beq_ℤ, Bool, true,
  false, not, Option, none, some, List, [], ◌∷◌, ltb, ◌==◌, if◌then◌else◌, update, ◌&&◌, ◌||◌,
}
use low_latency_electronic_t.Common.Types.{Side, side_to_index, me_max_tickers, price_invalid}
use low_latency_electronic_t.Exchange.Messages.{MeClientResponse}
use low_latency_electronic_t.Trading.Double.{Double}
use low_latency_electronic_t.Trading.MarketBook.Book.{Bbo}
use low_latency_electronic_t.Trading.Risk.{to_i32, signed, fits_i32}

-- `bbo` is what the pointer to the best prices shows.
pub record PositionInfo (W : Type 0) : Type 0 where
  pub position : ℤ
  pub real_pnl : W
  pub unreal_pnl : W
  pub total_pnl : W
  pub open_vwap : ℕ → W
  pub volume : ℕ
  pub bbo : Option Bbo

-- The side that an order of this side trades with.
abbrev pub opposite_side : Side → Side
opposite_side Side.buy = Side.sell
opposite_side _ = Side.buy

-- A price times a quantity, in integers.
abbrev pub notional_of : ℤ → ℕ → ℤ
notional_of price qty = sub_ℕ (pos_part price * qty) (neg_part price * qty)

abbrev min_ℤ : ℤ → ℤ → ℤ
min_ℤ a b = if ltb_ℤ b a then b else a

-- Whether two positions have different signs.
abbrev pub flips : ℤ → ℤ → Bool
flips a b =
    if ltb_ℤ a (pos 0)
    then ltb_ℤ (pos 0) b
    else (if ltb_ℤ (pos 0) a then ltb_ℤ b (pos 0) else false)

module _ {W : Type 0} (d : Double W) where
  abbrev pub size_of : ℤ → W
  size_of position = d.of_int (pos (nat_abs position))

  -- The unrealised profit at the price `x`, for a position that is not flat.
  unfoldable pub unreal_at : W → PositionInfo W → W
  unreal_at x p =
      if ltb_ℤ (pos 0) p.position
      then d.times (d.minus x (d.over (p.open_vwap (side_to_index Side.buy)) (size_of p.position)))
          (size_of p.position)
      else d.times (d.minus (d.over (p.open_vwap (side_to_index Side.sell)) (size_of p.position)) x)
          (size_of p.position)

  -- A fill that makes the position larger: its value joins that of its side.
  unfoldable pub open_more : MeClientResponse → PositionInfo W → PositionInfo W
  open_more r p = record p {
    open_vwap =
        update p.open_vwap (side_to_index r.side)
          (d.plus (p.open_vwap (side_to_index r.side)) (d.of_int (notional_of r.price r.exec_qty)));
  }

  -- A fill against the position `old`, once the new position is written.
  unfoldable pub close_some : ℤ → MeClientResponse → PositionInfo W → PositionInfo W
  unfolding to_i32 signed
  close_some old r p =
      let opposite = side_to_index (opposite_side r.side) in
      let vwap = d.over (p.open_vwap opposite) (size_of old) in
      let closed = update p.open_vwap opposite (d.times vwap (size_of p.position)) in
      let gain =
        d.times
          (d.times (d.of_int (min_ℤ (to_i32 r.exec_qty) (pos (nat_abs old))))
            (d.minus vwap (d.of_int r.price)))
          (d.of_int (signed r.side (pos 1))) in
      record p {
        real_pnl = d.plus p.real_pnl gain;
        open_vwap =
            if flips p.position old
            then update
                (update closed (side_to_index r.side)
                  (d.of_int (notional_of r.price (nat_abs p.position))))
                opposite (d.of_int (pos 0))
            else closed;
      }

  -- The unrealised profit after a fill; a flat position has none, and no open value.
  unfoldable pub mark_fill : MeClientResponse → PositionInfo W → PositionInfo W
  unfolding unreal_at
  mark_fill r p =
      if beq_ℤ p.position (pos 0)
      then record p {
        open_vwap =
            update (update p.open_vwap (side_to_index Side.buy) (d.of_int (pos 0)))
              (side_to_index Side.sell) (d.of_int (pos 0));
        unreal_pnl = d.of_int (pos 0);
      }
      else record p { unreal_pnl = unreal_at (d.of_int r.price) p }

  -- The rebate of the venue for a fill.
  unfoldable pub credit : MeClientResponse → W → PositionInfo W → PositionInfo W
  credit r bps p =
      let notional = d.times (d.of_int r.price) (d.of_int (pos r.exec_qty)) in
      let rebate = d.times (d.times notional bps) (d.dec (pos 1) 4) in
      if d.equal bps (d.of_int (pos 0))
      then p
      else record p { real_pnl = d.plus p.real_pnl rebate; total_pnl = d.plus p.total_pnl rebate }

  abbrev with_total : PositionInfo W → PositionInfo W
  with_total p = record p { total_pnl = d.plus p.unreal_pnl p.real_pnl }

  -- `PositionInfo::addFill`, once no number overflows.
  unfoldable pub book_fill : MeClientResponse → W → PositionInfo W → PositionInfo W
  unfolding to_i32 signed open_more close_some mark_fill credit
  book_fill r bps p =
      let filled : PositionInfo W = record p {
        position = p.position +ℤ signed r.side (to_i32 r.exec_qty);
        volume = (p.volume + r.exec_qty) % 2 ^ 32;
      } in
      let booked =
        if ltb_ℤ (signed r.side p.position) (pos 0)
        then close_some p.position r filled
        else open_more r filled in
      credit r bps (with_total (mark_fill r booked))

  -- Whether the `int32_t` numbers of a fill are in range: the signed quantity and the signed old
  -- position, the absolute values of the two positions, and for a fill against the position the product of the two.
  abbrev pub fill_fits : MeClientResponse → ℤ → Bool
  fill_fits r old =
      let change = signed r.side (to_i32 r.exec_qty) in
      let new = old +ℤ change in
      fits_i32 change
      && fits_i32 (signed r.side old)
      && ltb (nat_abs old) (2 ^ 31)
      && ltb (nat_abs new) (2 ^ 31)
      && (not (ltb_ℤ (signed r.side old) (pos 0))
          || ltb (nat_abs new * nat_abs old) (if flips new old then 2 ^ 31 + 1 else 2 ^ 31))

  -- `PositionInfo::addFill`.
  unfoldable pub add_fill : MeClientResponse → W → PositionInfo W → Option (PositionInfo W)
  unfolding to_i32 signed book_fill
  add_fill r bps p = if fill_fits r p.position then some (book_fill r bps p) else none

  -- `PositionInfo::updateBBO`.
  unfoldable pub update_bbo : Bbo → PositionInfo W → PositionInfo W
  unfolding unreal_at
  update_bbo bbo p =
      let seen : PositionInfo W = record p { bbo = some bbo } in
      let mid = d.times (d.of_int (bbo.bid_price +ℤ bbo.ask_price)) (d.dec (pos 5) 1) in
      if beq_ℤ p.position (pos 0)
      then seen
      else (if beq_ℤ bbo.bid_price price_invalid
          then seen
          else (if beq_ℤ bbo.ask_price price_invalid
              then seen
              else with_total (record seen { unreal_pnl = unreal_at mid seen })))

  pub record PositionKeeper : Type 0 where
    pub rebate_bps : ℕ → W
    pub ticker_position : ℕ → PositionInfo W

  -- `PositionKeeper::addFill` and `updateBBO`: both arrays are read with `at`.
  unfoldable pub keep_fill : MeClientResponse → PositionKeeper → Option PositionKeeper
  unfolding add_fill
  keep_fill r k =
      if ltb r.ticker_id me_max_tickers
      then elim (add_fill r (k.rebate_bps r.ticker_id) (k.ticker_position r.ticker_id)) [
        | none ↦ none
        | some p ↦ some (record k { ticker_position = update k.ticker_position r.ticker_id p })
      ]
      else none

  unfoldable pub keep_bbo : ℕ → Bbo → PositionKeeper → Option PositionKeeper
  unfolding update_bbo
  keep_bbo ticker_id bbo k =
      if ltb ticker_id me_max_tickers
      then some (record k {
        ticker_position =
            update k.ticker_position ticker_id (update_bbo bbo (k.ticker_position ticker_id));
      })
      else none

  -- The fills that the trade engine hands over, in turn.
  unfoldable pub keep_fills : List MeClientResponse → PositionKeeper → Option PositionKeeper
  unfolding keep_fill
  keep_fills [] k = some k
  keep_fills (r ∷ rs) k = elim (keep_fill r k) [ none ↦ none | some k' ↦ keep_fills rs k' ]
