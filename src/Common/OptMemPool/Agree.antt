-- ===== src/Common/OptMemPool/Agree.antt =====
-- Where the two pools (common/opt_mem_pool.h, common/mem_pool.h) agree.
use low_latency_electronic_t.Prelude.{ℕ, ◌<◌, ◌≡◌, Bool, true, false, arith}
use low_latency_electronic_t.Common.MemPool.{MemPool}
use low_latency_electronic_t.Common.MemPool
use low_latency_electronic_t.Common.MemPool.Laws.{IsValid}
use low_latency_electronic_t.Common.OptMemPool.{allocate, deallocate}

module _ {ℓ} {T : Type ℓ} where
  -- In either build the pool without the assertions hands out what the other one does, on every
  -- valid pool, and takes back what the other one does, for every block of the pool that is in use.
  pub agrees :
      (ndebug : Bool) (p : MemPool T)
      → IsValid p
      → ((obj : T) → allocate ndebug p obj ≡ MemPool.allocate p obj)
        × ((i : ℕ)
            → i < p.size
            → (p.store i).is_free ≡ false
            → deallocate ndebug p i ≡ MemPool.deallocate p i)
  unfolding allocate deallocate MemPool.allocate MemPool.deallocate
  agrees true p v = (λ obj. ground arith, λ i h u. ground arith)
  agrees false p v = (λ obj. ground arith, λ i h u. ground arith)
