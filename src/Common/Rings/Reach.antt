-- ===== src/Common/Rings/Reach.antt =====
-- What holds along a circular list from its head on.
use low_latency_electronic_t.Prelude.{ℕ, zero, suc, ◌<◌, ◌≡◌, ◌⊎◌, true, some, arith}
use low_latency_electronic_t.Common.Rings.{Rings, IsOk}

module _ (r : Rings) (ok : IsOk r) where
  -- Any other node of the group of a head has a larger rank.
  pub head-least :
      (g h p : ℕ)
      → r.head g ≡ some h
      → r.live p ≡ true
      → r.group p ≡ g
      → (p ≡ h) ⊎ (r.rank h < r.rank p)
  head-least g h p e l m = go (suc (r.rank p)) p l m (omega arith)
    where
      go :
          (n p : ℕ)
          → r.live p ≡ true
          → r.group p ≡ g
          → r.rank p < n
          → (p ≡ h) ⊎ (r.rank h < r.rank p)
      go zero p l m b = absurd (omega arith)
      go (suc n) p l m b = ground (arith, ok.rises p l, ok.previous p l, go n (r.pv p))

  -- A node that is its own neighbour is the only one of its group.
  pub alone :
      (p q : ℕ) → r.live p ≡ true → r.pv p ≡ p → r.live q ≡ true → r.group q ≡ r.group p → q ≡ p
  alone p q l s k m = go (suc (r.rank q)) q k m (omega arith)
    where
      go : (n q : ℕ) → r.live q ≡ true → r.group q ≡ r.group p → r.rank q < n → q ≡ p
      go zero q k m b = absurd (omega arith)
      go (suc n) q k m b =
          ground
            (arith, ok.rises p l, ok.rises q k, ok.previous p l, ok.previous q k, go n (r.pv q))
