-- ===== src/Common/Rings/Remove.antt =====
-- A node is taken out of a circular list.
use low_latency_electronic_t.Prelude.{ℕ, ◌≡◌, true, arith}
use low_latency_electronic_t.Common.Rings.{Rings, IsOk, remove}
use low_latency_electronic_t.Common.Rings.Reach.{alone}

pub remove-IsOk : (r : Rings) (p : ℕ) → IsOk r → r.live p ≡ true → IsOk (remove p r)
unfolding remove
remove-IsOk r p ok l = record {
  next = λ q h. ground (arith, ok.next p l, ok.previous p l, ok.next q, ok.previous q);
  previous = λ q h. ground (arith, ok.next p l, ok.previous p l, ok.next q, ok.previous q);
  has_head = λ q h. ground (arith, ok.has_head q, alone r ok p q l, ok.previous p l, ok.next p l);
  head_is = λ g h e.
      ground (arith, ok.head_is g h, ok.next p l, ok.previous p l, ok.next h, alone r ok p h l);
  rises = λ q h n. ground (
    arith,
    ok.rises q,
    ok.rises p l,
    ok.next p l,
    ok.previous p l,
    ok.next q,
    ok.previous q,
    alone r ok p q l,
  );
}
