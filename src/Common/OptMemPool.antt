-- ===== src/Common/OptMemPool.antt =====
-- common/opt_mem_pool.h: the copy of the pool whose hot-path assertions a build with `NDEBUG`
-- leaves out. Its blocks and its state are those of common/mem_pool.h.
pub mod Agree
use low_latency_electronic_t.Prelude.{
  ℕ, Bool, true, false, Option, none, some, ltb, ◌||◌, ◌&&◌, not, if◌then◌else◌, update,
}
use low_latency_electronic_t.Common.MemPool.{MemPool, found, scan}

-- `ndebug` says whether `NDEBUG` is defined.
module _ {ℓ} {T : Type ℓ} (ndebug : Bool) where
  unfoldable pub allocate : MemPool T → T → Option (ℕ × MemPool T)
  unfolding scan
  allocate p obj =
      let taken = update p.store p.next_free_index (record { object = obj; is_free = false }) in
      if ndebug || (p.store p.next_free_index).is_free
      then elim (scan taken p.size p.size p.next_free_index p.next_free_index) [
        | found i ↦
            some (p.next_free_index, record { store = taken; size = p.size; next_free_index = i })
        | _ ↦ none
      ]
      else none

  unfoldable pub deallocate : MemPool T → ℕ → Option (MemPool T)
  deallocate p idx =
      if ndebug || (ltb idx p.size && not (p.store idx).is_free)
      then some (record p {
        store = update p.store idx (record { object = (p.store idx).object; is_free = true });
      })
      else none
