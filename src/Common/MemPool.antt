-- ===== src/Common/MemPool.antt =====
-- common/mem_pool.h and common/opt_mem_pool.h: the object pool. The store is a function of the
-- index beside the length of the vector; a pointer into the pool is an index. `none` is the exit
-- of the process by a failed `ASSERT`.
pub mod Search
pub mod Laws
use low_latency_electronic_t.Prelude.{
  ℕ, zero, suc, ◌+◌, Bool, true, false, Option, none, some, ◌==◌, ltb, if◌then◌else◌, update,
}

pub record ObjectBlock {ℓ} (T : Type ℓ) : Type ℓ where
  pub object : T
  pub is_free : Bool

pub record MemPool {ℓ} (T : Type ℓ) : Type ℓ where
  pub store : ℕ → ObjectBlock T
  pub size : ℕ
  pub next_free_index : ℕ

-- How the search for a free block ends.
pub data Scan : Type 0 where
  found : ℕ → Scan
  out_of_space out_of_fuel : Scan

-- `++next_free_index_`, back to 0 at the end of the store.
abbrev pub advance : ℕ → ℕ → ℕ
advance size i = if i + 1 == size then 0 else i + 1

module _ {ℓ} {T : Type ℓ} where
  -- `MemPool(num_elems)`: every block holds `T()` and is free.
  unfoldable pub init : ℕ → T → MemPool T
  init num_elems default = record {
    store = λ i. record { object = default; is_free = true };
    size = num_elems;
    next_free_index = 0;
  }

  -- The loop of `updateNextFreeIndex`, with fuel.
  unfoldable pub scan : (ℕ → ObjectBlock T) → ℕ → ℕ → ℕ → ℕ → Scan
  scan store size zero initial i = out_of_fuel
  scan store size (suc fuel) initial i =
      let rest = scan store size fuel initial (advance size i) in
      if (store i).is_free
      then found i
      else (if initial == advance size i then out_of_space else rest)

  unfoldable pub update_next_free_index : MemPool T → Option (MemPool T)
  update_next_free_index p = elim (scan p.store p.size p.size p.next_free_index p.next_free_index) [
    | found i ↦ some (record p { next_free_index = i })
    | _ ↦ none
  ]

  -- The block that `allocate` hands out, and the pool after it. The block is written before the
  -- search for the next one.
  unfoldable pub allocate : MemPool T → T → Option (ℕ × MemPool T)
  unfolding update_next_free_index
  allocate p obj =
      if (p.store p.next_free_index).is_free
      then elim (update_next_free_index (record p {
        store = update p.store p.next_free_index (record { object = obj; is_free = false });
      })) [ some q ↦ some (p.next_free_index, q) | none ↦ none ]
      else none

  unfoldable pub deallocate : MemPool T → ℕ → Option (MemPool T)
  deallocate p idx =
      if ltb idx p.size
      then (if (p.store idx).is_free
          then none
          else some (record p {
            store = update p.store idx (record { object = (p.store idx).object; is_free = true });
          }))
      else none
