-- ===== src/Common/Rings/Insert.antt =====
-- A node joins a circular list.
use low_latency_electronic_t.Prelude.{ℕ, ◌<◌, ◌≡◌, ◌⊎◌, Bool, true, false, none, some, arith}
use low_latency_electronic_t.Common.Rings.{Rings, IsOk, found, insert}

pub found-IsOk :
    (r : Rings) (p g k : ℕ) → IsOk r → r.live p ≡ false → r.head g ≡ none → IsOk (found p g k r)
unfolding found
found-IsOk r p g k ok l e = record {
  next = λ q h. ground (arith, ok.next q);
  previous = λ q h. ground (arith, ok.previous q);
  has_head = λ q h. ground (arith, ok.has_head q);
  head_is = λ g' h e'. ground (arith, ok.head_is g' h);
  rises = λ q h n. ground (arith, ok.rises q, ok.has_head q, ok.previous q);
}

-- What makes room for a node of rank `k` behind `a`.
abbrev pub Fits : Bool → ℕ → ℕ → Rings → Type 0
Fits true a k r = (r.head (r.group a) ≡ some (r.nx a)) × (k < r.rank (r.nx a))
Fits false a k r = (r.rank a < k) × ((r.head (r.group a) ≡ some (r.nx a)) ⊎ (k < r.rank (r.nx a)))

pub insert-IsOk :
    (first : Bool) (r : Rings) (p a k : ℕ)
    → IsOk r
    → r.live p ≡ false
    → r.live a ≡ true
    → Fits first a k r
    → IsOk (insert first p a k r)
unfolding insert
insert-IsOk true r p a k ok l m (f, f') = record {
  next = λ q h. ground (arith, ok.next q, ok.previous q, ok.next a m);
  previous = λ q h. ground (arith, ok.previous q, ok.next a m, ok.next q);
  has_head = λ q h. ground (arith, ok.has_head q);
  head_is = λ g h e. ground (arith, ok.head_is g h, ok.next a m);
  rises = λ q h n. ground (arith, ok.rises q, ok.next a m, ok.previous q);
}
insert-IsOk false r p a k ok l m (f, f') = record {
  next = λ q h. ground (arith, ok.next q, ok.previous q, ok.next a m);
  previous = λ q h. ground (arith, ok.previous q, ok.next a m, ok.next q);
  has_head = λ q h. ground (arith, ok.has_head q, ok.has_head a m);
  head_is = λ g h e. ground (arith, ok.head_is g h, ok.next a m);
  rises = λ q h n. ground (arith, ok.rises q, ok.next a m, ok.previous q, ok.rises a m);
}
