-- ===== src/Trading/Positions/Sums.antt =====
-- What trading/strategy/position_keeper.h keeps over a history of fills, whatever the arithmetic of
-- the `double`s is.
use low_latency_electronic_t.Prelude.{
  nat_abs, ◌≤◌, ℕ, ◌+◌, ◌%◌, ◌^◌, ◌<◌, ◌≡◌, ◌⊎◌, ◌∙◌, refl, ap, sym, inl, inr, ℤ, pos, negsuc,
  pos_part, neg_part, eq_of_parts, sub_ℕ-parts, sub_ℕ, ◌+ℤ◌, some, List, [], ◌∷◌, ◌==◌,
  if◌then◌else◌, arith, Bool-cases,
}
use low_latency_electronic_t.Common.Types.{Side, side_to_index}
use low_latency_electronic_t.Exchange.Messages.{MeClientResponse}
use low_latency_electronic_t.Trading.Double.{Double}
use low_latency_electronic_t.Trading.Risk.{to_i32, signed}
use low_latency_electronic_t.Trading.Positions.{PositionKeeper, keep_fill, keep_fills}
use low_latency_electronic_t.Trading.Positions.Range.{FillOk, signed-abs, to_i32-abs, add-abs}
use low_latency_electronic_t.Trading.Positions.Booked.{eq_self, sums_of, keep_fill-sums}

-- The quantities of the fills of one side of a ticker.
abbrev pub filled : Side → ℕ → List MeClientResponse → ℕ
filled s t [] = 0
filled s t (r ∷ rs) =
    (if r.ticker_id == t
      then (if side_to_index r.side == side_to_index s then r.exec_qty else 0)
      else 0)
    + filled s t rs

abbrev pub FillsOk : List MeClientResponse → Type 0
FillsOk [] = Unit {0}
FillsOk (r ∷ rs) = FillOk r × FillsOk rs

signed-sub_ℕ :
    (s : Side) (q : ℕ)
    → q < 2 ^ 31
    → (s ≡ Side.buy) ⊎ (s ≡ Side.sell)
    → signed s (to_i32 q)
      ≡ sub_ℕ (if side_to_index s == 2 then q else 0) (if side_to_index s == 0 then q else 0)
unfolding signed to_i32
signed-sub_ℕ Side.buy q h k = ground arith
signed-sub_ℕ Side.sell q h k = ground arith
signed-sub_ℕ Side.invalid q h k = absurd (ground arith)
signed-sub_ℕ Side.max q h k = absurd (ground arith)

add_zero : (a : ℤ) → a +ℤ sub_ℕ 0 0 ≡ a
add_zero (pos n) = ground arith
add_zero (negsuc n) = ground arith

add_sub : (a : ℤ) (m n m' n' : ℕ) → (a +ℤ sub_ℕ m n) +ℤ sub_ℕ m' n' ≡ a +ℤ sub_ℕ (m + m') (n + n')
add_sub a m n m' n' =
    let b = sub_ℕ m n in
    let c = sub_ℕ m' n' in
    let e = sub_ℕ (m + m') (n + n') in
    eq_of_parts ((a +ℤ b) +ℤ c) (a +ℤ e) (
      omega (
        arith,
        sub_ℕ-parts m n,
        sub_ℕ-parts m' n',
        sub_ℕ-parts (m + m') (n + n'),
        sub_ℕ-parts (pos_part a + pos_part b) (neg_part a + neg_part b),
        sub_ℕ-parts (pos_part (a +ℤ b) + pos_part c) (neg_part (a +ℤ b) + neg_part c),
        sub_ℕ-parts (pos_part a + pos_part e) (neg_part a + neg_part e),
      ))

filled-both :
    (s : Side) (q : ℕ)
    → (s ≡ Side.buy) ⊎ (s ≡ Side.sell)
    → (if side_to_index s == 2 then q else 0) + (if side_to_index s == 0 then q else 0) ≡ q
filled-both Side.buy q k = omega arith
filled-both Side.sell q k = omega arith
filled-both Side.invalid q k = absurd (ground arith)
filled-both Side.max q k = absurd (ground arith)

unmoved : (a : ℤ) (m n : ℕ) → a +ℤ sub_ℕ m n ≡ a +ℤ sub_ℕ (0 + m) (0 + n)
unmoved a m n =
    let left : m ≡ 0 + m = omega arith in
    let right : n ≡ 0 + n = omega arith in
    ap (λ x. a +ℤ sub_ℕ x n) left ∙ ap (λ x. a +ℤ sub_ℕ (0 + m) x) right

moved :
    (a : ℤ) (s : Side) (q m n : ℕ)
    → q < 2 ^ 31
    → (s ≡ Side.buy) ⊎ (s ≡ Side.sell)
    → (a +ℤ signed s (to_i32 q)) +ℤ sub_ℕ m n
      ≡ a
        +ℤ sub_ℕ
            ((if side_to_index s == 2 then q else 0) + m)
            ((if side_to_index s == 0 then q else 0) + n)
moved a s q m n h k =
    ap (λ (x : ℤ). (a +ℤ x) +ℤ sub_ℕ m n) (signed-sub_ℕ s q h k)
    ∙ add_sub a (if side_to_index s == 2 then q else 0) (if side_to_index s == 0 then q else 0) m n

module _ {W : Type 0} (d : Double W) where
  chain :
      (r : MeClientResponse) (rs : List MeClientResponse) (k : PositionKeeper d)
      {k1 k' : PositionKeeper d}
      → keep_fill d r k ≡ some k1
      → keep_fills d rs k1 ≡ some k'
      → keep_fills d (r ∷ rs) k ≡ some k'
  unfolding keep_fills
  chain r rs k e e' = ground arith

  -- No ticker's position leaves this range, whatever part of the fills is booked.
  abbrev pub InRange : PositionKeeper d → List MeClientResponse → Type 0
  InRange k rs =
      (t : ℕ)
      → nat_abs (k.ticker_position t).position + filled Side.buy t rs + filled Side.sell t rs
        ≤ 46340

  InRange-step :
      (r : MeClientResponse) (rs : List MeClientResponse) (k k1 : PositionKeeper d)
      → FillOk r
      → ((t : ℕ)
          → sums_of d t k1 ≡ (
              if r.ticker_id == t
              then (
                (k.ticker_position t).position +ℤ signed r.side (to_i32 r.exec_qty),
                ((k.ticker_position t).volume + r.exec_qty) % 2 ^ 32,
              )
              else sums_of d t k))
      → InRange k (r ∷ rs)
      → InRange k1 rs
  InRange-step r rs k k1 (h, q, s) one range t = elim (Bool-cases (r.ticker_id == t)) [
    | inl c ↦
        let now = ap (λ (x : ℤ × ℕ). x.0) (simp (c) at (one t)) in
        let change = signed r.side (to_i32 r.exec_qty) in
        let all = simp (c) at (range t) in
        let head = filled-both r.side r.exec_qty s in
        omega (
          arith,
          ap nat_abs now,
          add-abs (k.ticker_position t).position change,
          signed-abs r.side (to_i32 r.exec_qty) s,
          to_i32-abs r.exec_qty q,
          head,
          all,
        )
    | inr c ↦
        let now = ap (λ (x : ℤ × ℕ). x.0) (simp (c) at (one t)) in
        let all = simp (c) at (range t) in omega (arith, ap nat_abs now, all)
  ]

  InRange-head :
      (r : MeClientResponse) (rs : List MeClientResponse) (k : PositionKeeper d)
      → FillOk r
      → InRange k (r ∷ rs)
      → nat_abs (k.ticker_position r.ticker_id).position + r.exec_qty ≤ 46340
  InRange-head r rs k (h, q, s) range =
      let all = simp (eq_self r.ticker_id) at (range r.ticker_id) in
      omega (arith, filled-both r.side r.exec_qty s, all)

  -- The fills of a history are all booked, if each is of an order to buy or to sell with ticker and
  -- quantity in range, and each ticker's old position and the quantities of its fills add up to no
  -- more than 46340, so that no product of two positions leaves the range of int32_t. The position
  -- of a ticker moves by what its fills bought less what they sold, and its volume by both, modulo
  -- 2^32.
  pub keep_fills-sums :
      (rs : List MeClientResponse) (k : PositionKeeper d)
      → FillsOk rs
      → InRange k rs
      → (k' : PositionKeeper d) × (keep_fills d rs k ≡ some k')
        × ((t : ℕ)
            → ((k'.ticker_position t).position
                ≡ (k.ticker_position t).position
                  +ℤ sub_ℕ (filled Side.buy t rs) (filled Side.sell t rs))
              × ((k'.ticker_position t).volume % 2 ^ 32
                  ≡ ((k.ticker_position t).volume + filled Side.buy t rs + filled Side.sell t rs)
                    % 2 ^ 32))
  unfolding keep_fills
  keep_fills-sums [] k h range =
      (k, refl, λ t. (sym (add_zero (k.ticker_position t).position), ground arith))
  keep_fills-sums (r ∷ rs) k (h, hs) range =
      let (k1, e, one) = keep_fill-sums d r k h (InRange-head r rs k h range) in
      let (k', e', rest) = keep_fills-sums rs k1 hs (InRange-step r rs k k1 h one range) in
      (
        k',
        chain r rs k e e',
        λ t. elim (Bool-cases (r.ticker_id == t)) [
          | inl c ↦
              let now = simp (c) at (one t) in
              let p1 = ap (λ (x : ℤ × ℕ). x.0) now in
              let v1 = ap (λ (x : ℤ × ℕ). x.1) now in
              (
                simp (c) (
                    (rest t).0
                    ∙ ap (λ (x : ℤ). x +ℤ sub_ℕ (filled Side.buy t rs) (filled Side.sell t rs)) p1
                    ∙ moved (k.ticker_position t).position r.side r.exec_qty (filled Side.buy t rs)
                        (filled Side.sell t rs) h.1 h.2),
                (rest t).1 ∙ ground (arith, v1, h.2),
              )
          | inr c ↦
              let now = simp (c) at (one t) in
              (
                simp (c) (
                    (rest t).0
                    ∙ ap (λ (x : ℤ). x +ℤ sub_ℕ (filled Side.buy t rs) (filled Side.sell t rs))
                        (ap (λ (x : ℤ × ℕ). x.0) now)
                    ∙ unmoved (k.ticker_position t).position (filled Side.buy t rs)
                        (filled Side.sell t rs)),
                (rest t).1 ∙ ground (arith, ap (λ (x : ℤ × ℕ). x.1) now),
              )
        ],
      )
