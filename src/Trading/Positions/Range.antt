-- ===== src/Trading/Positions/Range.antt =====
-- When the `int32_t` arithmetic of a fill (trading/strategy/position_keeper.h) stays in its range.
use low_latency_electronic_t.Prelude.{
  not, Bool, ◌&&◌, ◌||◌, nat_abs, ◌*◌, ◌≤◌, ℕ, ◌+◌, ◌^◌, ◌<◌, ◌≡◌, ◌⊎◌, ℤ, pos, pos_part, neg_part,
  sub_ℕ, ◌+ℤ◌, true, some, ltb, ltb_ℤ, if◌then◌else◌, arith,
}
use low_latency_electronic_t.Common.Types.{Side, me_max_tickers}
use low_latency_electronic_t.Exchange.Messages.{MeClientResponse}
use low_latency_electronic_t.Trading.Double.{Double}
use low_latency_electronic_t.Trading.Risk.{to_i32, signed, fits_i32}
use low_latency_electronic_t.Trading.Positions.{PositionInfo, add_fill, book_fill, fill_fits, flips}

-- A fill of an order to buy or to sell, of a ticker and a quantity in range.
abbrev pub FillOk : MeClientResponse → Type 0
FillOk r =
    (r.ticker_id < me_max_tickers)
    × (r.exec_qty < 2 ^ 31)
    × ((r.side ≡ Side.buy) ⊎ (r.side ≡ Side.sell))

-- The largest number whose square is below 2^31 is 46340.
product-small : (a b : ℕ) → a ≤ 46340 → b ≤ 46340 → a * b < 2 ^ 31
product-small a b h k = grind arith

pub signed-abs :
    (s : Side) (v : ℤ) → (s ≡ Side.buy) ⊎ (s ≡ Side.sell) → nat_abs (signed s v) ≤ nat_abs v
unfolding signed
signed-abs Side.buy v k = omega arith
signed-abs Side.sell v k = ground arith
signed-abs Side.invalid v k = absurd (ground arith)
signed-abs Side.max v k = absurd (ground arith)

pub to_i32-abs : (q : ℕ) → q < 2 ^ 31 → nat_abs (to_i32 q) ≡ q
unfolding to_i32
to_i32-abs q h = ground arith

sub_ℕ-abs : (m n : ℕ) → nat_abs (sub_ℕ m n) ≤ m + n
sub_ℕ-abs m n = ground arith

pub add-abs : (a b : ℤ) → nat_abs (a +ℤ b) ≤ nat_abs a + nat_abs b
add-abs a b = omega (arith, sub_ℕ-abs (pos_part a + pos_part b) (neg_part a + neg_part b))

fits_i32-small : (z : ℤ) → nat_abs z ≤ 46340 → fits_i32 z ≡ true
fits_i32-small z h = ground arith

product-fits :
    (x c : Bool) (a b : ℕ)
    → a ≤ 46340
    → b ≤ 46340
    → (x || ltb (a * b) (if c then 2 ^ 31 + 1 else 2 ^ 31)) ≡ true
product-fits x c a b h k = ground (arith, product-small a b h k)

all_true :
    {a b c e f : Bool}
    → a ≡ true
    → b ≡ true
    → c ≡ true
    → e ≡ true
    → f ≡ true
    → (a && b && c && e && f) ≡ true
all_true h i j k l = ground arith

module _ {W : Type 0} (d : Double W) where
  pub add_fill-fits :
      (r : MeClientResponse) (bps : W) (p : PositionInfo W)
      → fill_fits d r p.position ≡ true
      → add_fill d r bps p ≡ some (book_fill d r bps p)
  unfolding add_fill
  add_fill-fits r bps p h = ground arith

  pub fill_fits-small :
      (r : MeClientResponse) (old : ℤ)
      → FillOk r
      → nat_abs old + r.exec_qty ≤ 46340
      → fill_fits d r old ≡ true
  fill_fits-small r old (h, q, s) k =
      let change = signed r.side (to_i32 r.exec_qty) in
      let change_abs : nat_abs change ≤ r.exec_qty =
        omega (arith, signed-abs r.side (to_i32 r.exec_qty) s, to_i32-abs r.exec_qty q) in
      let new_abs : nat_abs (old +ℤ change) ≤ 46340 =
        omega (arith, add-abs old change, change_abs, k) in
      let old_abs : nat_abs old ≤ 46340 = omega (arith, k) in
      let e1 : fits_i32 change ≡ true = fits_i32-small change (omega (arith, change_abs, k)) in
      let e2 : fits_i32 (signed r.side old) ≡ true =
        fits_i32-small (signed r.side old) (omega (arith, signed-abs r.side old s, old_abs)) in
      let e3 : ltb (nat_abs old) (2 ^ 31) ≡ true = ground (arith, old_abs) in
      let e4 : ltb (nat_abs (old +ℤ change)) (2 ^ 31) ≡ true = ground (arith, new_abs) in
      all_true e1 e2 e3 e4 (
        product-fits (not (ltb_ℤ (signed r.side old) (pos 0))) (flips (old +ℤ change) old)
          (nat_abs (old +ℤ change)) (nat_abs old) new_abs old_abs)
