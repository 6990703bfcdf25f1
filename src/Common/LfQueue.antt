-- ===== src/Common/LfQueue.antt =====
-- common/lf_queue.h: the ring buffer between two threads. Each thread's call is one step; the
-- atomic counters are numbers. `none` is the end of the process by a failed `ASSERT`.
pub mod Refine
use low_latency_electronic_t.Prelude.{
  ℕ, ◌+◌, ◌-◌, ◌%◌, Option, none, some, ◌==◌, if◌then◌else◌, update,
}

pub record LfQueue {ℓ} (T : Type ℓ) : Type ℓ where
  pub store : ℕ → T
  pub capacity : ℕ
  pub next_write_index : ℕ
  pub next_read_index : ℕ
  pub num_elements : ℕ

module _ {ℓ} {T : Type ℓ} where
  -- `LFQueue(num_elems)`.
  unfoldable pub init : ℕ → T → LfQueue T
  init num_elems default = record {
    store = λ i. default;
    capacity = num_elems;
    next_write_index = 0;
    next_read_index = 0;
    num_elements = 0;
  }

  -- `*getNextToWriteTo() = v`: the slot at the write index is written, also if the queue is full.
  unfoldable pub write : LfQueue T → T → LfQueue T
  write q v = record q { store = update q.store q.next_write_index v }

  unfoldable pub update_write_index : LfQueue T → LfQueue T
  update_write_index q = record q {
    next_write_index = (q.next_write_index + 1) % q.capacity;
    num_elements = q.num_elements + 1;
  }

  unfoldable pub get_next_to_read : LfQueue T → Option T
  get_next_to_read q = if q.num_elements == 0 then none else some (q.store q.next_read_index)

  unfoldable pub update_read_index : LfQueue T → Option (LfQueue T)
  update_read_index q =
      if q.num_elements == 0
      then none
      else some (record q {
        next_read_index = (q.next_read_index + 1) % q.capacity;
        num_elements = q.num_elements - 1;
      })

  -- A producer's sequence of calls: the slot, then the index.
  unfoldable pub push : LfQueue T → T → LfQueue T
  unfolding write update_write_index
  push q v = update_write_index (write q v)
