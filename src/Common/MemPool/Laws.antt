-- ===== src/Common/MemPool/Laws.antt =====
-- What the users of a pool (common/mem_pool.h) rely on: a block is handed out once, the others
-- are left alone, and when the pool is out of space.
use low_latency_electronic_t.Prelude.{
  ℕ, ◌≤◌, ◌<◌, ◌≡◌, ◌≢◌, ◌↔◌, ◌⊎◌, inl, inr, refl, true, false, none, some, arith, update,
}
use low_latency_electronic_t.Common.MemPool.{
  ObjectBlock, MemPool, found, out_of_space, out_of_fuel, Scan, scan, init, allocate, deallocate,
}
use low_latency_electronic_t.Common.MemPool.Search.{
  scan-found, scan-ne-out_of_fuel, scan-out_of_space,
}

Scan-cases : (s : Scan) → ((k : ℕ) × (s ≡ found k)) ⊎ (s ≡ out_of_space) ⊎ (s ≡ out_of_fuel)
Scan-cases (found k) = inl (k, refl)
Scan-cases out_of_space = inr (inl refl)
Scan-cases out_of_fuel = inr (inr refl)

module _ {ℓ} {T : Type ℓ} where
  -- The next index is that of a free block.
  pub record IsValid (p : MemPool T) : Type ℓ where
    pub in_range : p.next_free_index < p.size
    pub free : (p.store p.next_free_index).is_free ≡ true

  -- A new pool is valid.
  pub init-IsValid : (n : ℕ) (d : T) → 0 < n → IsValid (init n d)
  unfolding init
  init-IsValid n d h = record { in_range = h; free = refl }

  -- What `allocate` leaves behind.
  pub record Allocated (p : MemPool T) (obj : T) (i : ℕ) (q : MemPool T) : Type ℓ where
    pub valid : IsValid q
    pub same_size : q.size ≡ p.size
    pub at_next : i ≡ p.next_free_index
    pub in_range : i < p.size
    pub was_free : (p.store i).is_free ≡ true
    pub written : q.store i ≡ record { object = obj; is_free = false }
    pub others : (j : ℕ) → j ≢ i → q.store j ≡ p.store j

  -- The store once the block at `next_free_index` is taken.
  abbrev taken : MemPool T → T → ℕ → ObjectBlock T
  taken p obj = update p.store p.next_free_index (record { object = obj; is_free = false })

  -- A block that `allocate` hands out of a valid pool was free, now holds the object and is in use;
  -- no other block changes, and the pool stays valid.
  pub allocate-Allocated :
      (p : MemPool T) (obj : T) {i : ℕ} {q : MemPool T}
      → IsValid p
      → allocate p obj ≡ some (i, q)
      → Allocated p obj i q
  unfolding allocate
  allocate-Allocated p obj {i} {q} v e = ground (
    arith,
    scan-found (taken p obj) p.size p.size p.next_free_index p.next_free_index q.next_free_index,
  )

  pub allocate-object :
      (p : MemPool T) (obj : T) {i : ℕ} {q : MemPool T}
      → allocate p obj ≡ some (i, q)
      → (q.store i).object ≡ obj
  unfolding allocate
  allocate-object p obj e = ground arith

  -- On a valid pool, `allocate` ends the process exactly if every block but the one at
  -- `next_free_index` is in use: the last free block of a pool is never handed out.
  pub allocate-eq-none :
      (p : MemPool T) (obj : T)
      → IsValid p
      → (allocate p obj ≡ none)
        ↔ ((j : ℕ) → j < p.size → j ≢ p.next_free_index → (p.store j).is_free ≡ false)
  unfolding allocate
  allocate-eq-none p obj v = (
    (λ e j h ne. ground (
      arith,
      scan-ne-out_of_fuel (taken p obj) size size next next,
      scan-out_of_space (taken p obj) size size next next j,
    )),
    (λ used. elim (Scan-cases (scan (taken p obj) size size next next)) [
      | inl (k, e) ↦ absurd (ground (arith, used k, scan-found (taken p obj) size size next next k))
      | inr (inl e) ↦ ground arith
      | inr (inr e) ↦ ground arith
    ]),
  )
    where
      open p use {size, next_free_index as next}

  -- A block in use of a valid pool is given back: it is free again with its object left in place,
  -- no other block changes, and the pool stays valid.
  pub deallocate_lem :
      (p : MemPool T) (i : ℕ)
      → IsValid p
      → i < p.size
      → (p.store i).is_free ≡ false
      → (q : MemPool T) × (deallocate p i ≡ some q)
        × IsValid q
        × (q.size ≡ p.size)
        × (q.next_free_index ≡ p.next_free_index)
        × (q.store i ≡ record { object = (p.store i).object; is_free = true })
        × ((j : ℕ) → j ≢ i → q.store j ≡ p.store j)
  unfolding deallocate
  deallocate_lem p i v h u = (
    record p { store = update p.store i (record { object = (p.store i).object; is_free = true }) },
    ground arith,
    ground arith,
    refl,
    refl,
    ground arith,
    λ j ne. ground arith,
  )

  -- A block that is free, or lies outside the pool, is never given back: the process ends.
  pub deallocate-eq-none :
      (p : MemPool T) (i : ℕ)
      → (deallocate p i ≡ none) ↔ ((p.size ≤ i) ⊎ ((p.store i).is_free ≡ true))
  unfolding deallocate
  deallocate-eq-none p i = (ground arith, ground arith)
