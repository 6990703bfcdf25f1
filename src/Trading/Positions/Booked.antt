-- ===== src/Trading/Positions/Booked.antt =====
-- What one fill (trading/strategy/position_keeper.h) does to the position and the volume.
use low_latency_electronic_t.Prelude.{
  nat_abs, ◌≤◌, ℕ, ◌+◌, ◌%◌, ◌^◌, ◌≡◌, ◌∙◌, refl, sym, subst, inl, inr, ℤ, pos, ◌+ℤ◌, true, false,
  some, ◌==◌, ltb, ltb_ℤ, beq_ℤ, if◌then◌else◌, update, arith, Bool-cases,
}
use low_latency_electronic_t.Common.Types.{me_max_tickers}
use low_latency_electronic_t.Exchange.Messages.{MeClientResponse}
use low_latency_electronic_t.Trading.Double.{Double}
use low_latency_electronic_t.Trading.Risk.{to_i32, signed}
use low_latency_electronic_t.Trading.Positions.{
  PositionInfo, PositionKeeper, open_more, close_some, mark_fill, credit, book_fill, keep_fill,
}
use low_latency_electronic_t.Trading.Positions.Range.{FillOk, add_fill-fits, fill_fits-small}

pub eq_self : (n : ℕ) → (n == n) ≡ true
eq_self n = ground arith

module _ {W : Type 0} (d : Double W) where
  -- The position and the volume of a position.
  abbrev sums : PositionInfo W → ℤ × ℕ
  sums p = (p.position, p.volume)

  mark_fill-sums : (r : MeClientResponse) (p : PositionInfo W) → sums (mark_fill d r p) ≡ sums p
  unfolding mark_fill
  mark_fill-sums r p = elim (Bool-cases (beq_ℤ p.position (pos 0))) [
    | inl h ↦ simp (h) refl
    | inr h ↦ simp (h) refl
  ]

  credit-sums :
      (r : MeClientResponse) (bps : W) (p : PositionInfo W) → sums (credit d r bps p) ≡ sums p
  unfolding credit
  credit-sums r bps p = elim (Bool-cases (d.equal bps (d.of_int (pos 0)))) [
    | inl h ↦ simp (h) refl
    | inr h ↦ simp (h) refl
  ]

  booked-sums :
      (old : ℤ) (r : MeClientResponse) (p : PositionInfo W)
      → sums (if ltb_ℤ (signed r.side old) (pos 0) then close_some d old r p else open_more d r p)
        ≡ sums p
  unfolding open_more close_some
  booked-sums old r p = elim (Bool-cases (ltb_ℤ (signed r.side old) (pos 0))) [
    | inl h ↦ simp (h) refl
    | inr h ↦ simp (h) refl
  ]

  book_fill-sums :
      (r : MeClientResponse) (bps : W) (p : PositionInfo W)
      → sums (book_fill d r bps p)
        ≡ (p.position +ℤ signed r.side (to_i32 r.exec_qty), (p.volume + r.exec_qty) % 2 ^ 32)
  unfolding book_fill open_more close_some
  book_fill-sums r bps p =
      let filled : PositionInfo W = record p {
        position = p.position +ℤ signed r.side (to_i32 r.exec_qty);
        volume = (p.volume + r.exec_qty) % 2 ^ 32;
      } in
      let booked =
        if ltb_ℤ (signed r.side p.position) (pos 0)
        then close_some d p.position r filled
        else open_more d r filled in
      let marked = mark_fill d r booked in
      credit-sums r bps (record marked { total_pnl = d.plus marked.unreal_pnl marked.real_pnl })
      ∙ mark_fill-sums r booked
      ∙ booked-sums p.position r filled

  -- The position and the volume of a ticker.
  abbrev pub sums_of : ℕ → PositionKeeper d → ℤ × ℕ
  sums_of t k = sums (k.ticker_position t)

  pub keep_fill-sums :
      (r : MeClientResponse) (k : PositionKeeper d)
      → FillOk r
      → nat_abs (k.ticker_position r.ticker_id).position + r.exec_qty ≤ 46340
      → (k' : PositionKeeper d) × (keep_fill d r k ≡ some k')
        × ((t : ℕ)
            → sums_of t k' ≡ (
                if r.ticker_id == t
                then (
                  (k.ticker_position t).position +ℤ signed r.side (to_i32 r.exec_qty),
                  ((k.ticker_position t).volume + r.exec_qty) % 2 ^ 32,
                )
                else sums_of t k))
  unfolding keep_fill
  keep_fill-sums r k (h, q, s) small =
      let done = book_fill-sums r (k.rebate_bps r.ticker_id) (k.ticker_position r.ticker_id) in
      let fits = fill_fits-small d r (k.ticker_position r.ticker_id).position (h, q, s) small in
      let e = add_fill-fits d r (k.rebate_bps r.ticker_id) (k.ticker_position r.ticker_id) fits in
      let h' : ltb r.ticker_id me_max_tickers ≡ true = ground arith in
      (
        record k {
          ticker_position =
              update k.ticker_position r.ticker_id
                (book_fill d r (k.rebate_bps r.ticker_id) (k.ticker_position r.ticker_id));
        },
        simp (h', e) refl,
        λ t. elim (Bool-cases (r.ticker_id == t)) [
          | inl e ↦
              let same : t ≡ r.ticker_id = ground arith in
              subst
                (λ x.
                  sums (
                    update k.ticker_position r.ticker_id
                      (book_fill d r (k.rebate_bps r.ticker_id) (k.ticker_position r.ticker_id)) x)
                  ≡ (if r.ticker_id == x
                      then (
                        (k.ticker_position x).position +ℤ signed r.side (to_i32 r.exec_qty),
                        ((k.ticker_position x).volume + r.exec_qty) % 2 ^ 32,
                      )
                      else sums_of x k))
                (sym same) (simp (eq_self r.ticker_id) done)
          | inr e ↦ let other : (t == r.ticker_id) ≡ false = ground arith in simp (e, other) refl
        ],
      )
