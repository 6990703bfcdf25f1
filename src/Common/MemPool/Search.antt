-- ===== src/Common/MemPool/Search.antt =====
-- The loop of `updateNextFreeIndex` (common/mem_pool.h): what it visits, and that its fuel is
-- enough.
use low_latency_electronic_t.Prelude.{
  ℕ, zero, suc, ◌+◌, ◌-◌, ◌≤◌, ◌<◌, ◌≡◌, ◌≢◌, inl, inr, Bool-cases, true, false, ◌==◌, ltb,
  if◌then◌else◌, arith,
}
use low_latency_electronic_t.Common.MemPool.{
  ObjectBlock, found, out_of_space, out_of_fuel, advance, scan,
}

-- The steps that the index `i` still has to go until it is back at `initial`.
abbrev gap : ℕ → ℕ → ℕ → ℕ
gap size initial i = if ltb i initial then initial - i else initial + size - i

-- The indices from `i` round the end of the store up to `initial`.
abbrev pub Ahead : ℕ → ℕ → ℕ → ℕ → Type 0
Ahead size initial i j = gap size initial j ≤ gap size initial i

module _ {ℓ} {T : Type ℓ} (store : ℕ → ObjectBlock T) (size : ℕ) where
  -- What the search finds is a free block of the pool.
  pub scan-found :
      (fuel initial i k : ℕ)
      → i < size
      → scan store size fuel initial i ≡ found k
      → (k < size) × ((store k).is_free ≡ true)
  unfolding scan
  scan-found zero initial i k h e = cc
  scan-found (suc fuel) initial i k h e = ground (arith, scan-found fuel initial (advance size i) k)

  -- As much fuel as there are blocks is enough.
  pub scan-ne-out_of_fuel :
      (fuel initial i : ℕ)
      → i < size
      → initial < size
      → gap size initial i ≤ fuel
      → scan store size fuel initial i ≢ out_of_fuel
  unfolding scan
  scan-ne-out_of_fuel zero initial i h k g = absurd (ground arith)
  scan-ne-out_of_fuel (suc fuel) initial i h k g =
      ground (arith, scan-ne-out_of_fuel fuel initial (advance size i))

  pub scan-out_of_space :
      (fuel initial i j : ℕ)
      → i < size
      → initial < size
      → j < size
      → scan store size fuel initial i ≡ out_of_space
      → Ahead size initial i j
      → (store j).is_free ≡ false
  unfolding scan
  scan-out_of_space zero initial i j h k l e a = cc
  scan-out_of_space (suc fuel) initial i j h k l e a = elim (Bool-cases (j == i)) [
    | inl p ↦ ground arith
    | inr p ↦ ground (arith, scan-out_of_space fuel initial (advance size i) j)
  ]
