-- ===== src/Common/Rings.antt =====
-- The circular lists of the two order books (exchange/matcher/me_order_book.h and
-- trading/strategy/market_order_book.h): nodes with a next and a previous one, in groups, each
-- group with a head. The links of a node are read as numbers.
pub mod Reach
pub mod Remove
pub mod Insert
use low_latency_electronic_t.Prelude.{
  ℕ, ◌<◌, ◌≡◌, ◌≢◌, Bool, true, false, Option, none, some, ptr_eq, ◌==◌, if◌then◌else◌, update,
  arith,
}

pub record Rings : Type 0 where
  pub live : ℕ → Bool
  pub nx : ℕ → ℕ
  pub pv : ℕ → ℕ
  pub group : ℕ → ℕ
  pub rank : ℕ → ℕ
  pub head : ℕ → Option ℕ

-- The links of live nodes are inverse to each other and stay in the group; a group has a head
-- exactly if it has a node; and along a group, from its head on, the ranks rise.
pub record IsOk (r : Rings) : Type 0 where
  pub next :
      (p : ℕ)
      → r.live p ≡ true
      → (r.live (r.nx p) ≡ true) × (r.pv (r.nx p) ≡ p) × (r.group (r.nx p) ≡ r.group p)
  pub previous :
      (p : ℕ)
      → r.live p ≡ true
      → (r.live (r.pv p) ≡ true) × (r.nx (r.pv p) ≡ p) × (r.group (r.pv p) ≡ r.group p)
  pub has_head : (p : ℕ) → r.live p ≡ true → r.head (r.group p) ≢ none
  pub head_is : (g h : ℕ) → r.head g ≡ some h → (r.live h ≡ true) × (r.group h ≡ g)
  pub rises : (p : ℕ) → r.live p ≡ true → r.head (r.group p) ≢ some p → r.rank (r.pv p) < r.rank p

-- Two descriptions of the same live nodes.
pub record Agree (r s : Rings) : Type 0 where
  pub live : (p : ℕ) → s.live p ≡ r.live p
  pub nx : (p : ℕ) → s.live p ≡ true → s.nx p ≡ r.nx p
  pub pv : (p : ℕ) → s.live p ≡ true → s.pv p ≡ r.pv p
  pub group : (p : ℕ) → s.live p ≡ true → s.group p ≡ r.group p
  pub rank : (p : ℕ) → s.live p ≡ true → s.rank p ≡ r.rank p
  pub head : (g : ℕ) → s.head g ≡ r.head g

pub Agree-IsOk : (r s : Rings) → IsOk r → Agree r s → IsOk s
Agree-IsOk r s ok a = record {
  next = λ p h. ground (
    arith,
    a.live p,
    a.nx p h,
    ok.next p,
    a.live (r.nx p),
    a.pv (r.nx p),
    a.group p h,
    a.group (r.nx p),
  );
  previous = λ p h. ground (
    arith,
    a.live p,
    a.pv p h,
    ok.previous p,
    a.live (r.pv p),
    a.nx (r.pv p),
    a.group p h,
    a.group (r.pv p),
  );
  has_head = λ p h. ground (arith, a.live p, a.group p h, ok.has_head p, a.head (r.group p));
  head_is = λ g h e. ground (arith, a.head g, ok.head_is g h, a.live h, a.group h);
  rises = λ p h n. ground (
    arith,
    a.live p,
    a.group p h,
    a.head (r.group p),
    ok.rises p,
    a.pv p h,
    a.rank p h,
    a.rank (r.pv p),
    ok.previous p,
    a.live (r.pv p),
  );
}

-- The node `p` is taken out.
unfoldable pub remove : ℕ → Rings → Rings
remove p r = record r {
  live = update r.live p false;
  nx = update r.nx (r.pv p) (r.nx p);
  pv = update r.pv (r.nx p) (r.pv p);
  head =
      if r.pv p == p
      then update r.head (r.group p) none
      else (if ptr_eq (r.head (r.group p)) (some p)
          then update r.head (r.group p) (some (r.nx p))
          else r.head);
}

-- The node `p` is the first one of its group.
unfoldable pub found : ℕ → ℕ → ℕ → Rings → Rings
found p g k r = record {
  live = update r.live p true;
  nx = update r.nx p p;
  pv = update r.pv p p;
  group = update r.group p g;
  rank = update r.rank p k;
  head = update r.head g (some p);
}

-- The node `p` is put behind the node `a`, and made the head if `first` says so.
unfoldable pub insert : Bool → ℕ → ℕ → ℕ → Rings → Rings
insert first p a k r = record {
  live = update r.live p true;
  nx = update (update r.nx a p) p (r.nx a);
  pv = update (update r.pv (r.nx a) p) p a;
  group = update r.group p (r.group a);
  rank = update r.rank p k;
  head = if first then update r.head (r.group a) (some p) else r.head;
}
