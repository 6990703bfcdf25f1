-- ===== src/Tests/Common.antt =====
-- The pools and the queue (common/) at concrete inputs.
use low_latency_electronic_t.Prelude.{
  ℕ, ◌<◌, ◌≡◌, ◌≢◌, ◌↔◌, ◌⊎◌, refl, true, false, none, some, [], ◌∷◌, update, arith,
}
use low_latency_electronic_t.Common.MemPool.{MemPool, allocate, deallocate, scan}
use low_latency_electronic_t.Common.MemPool.Laws.{
  IsValid, Allocated, allocate-Allocated, allocate-eq-none, deallocate_lem,
}
use low_latency_electronic_t.Common.OptMemPool
use low_latency_electronic_t.Common.OptMemPool.Agree.{agrees}
use low_latency_electronic_t.Common.LfQueue.{LfQueue, push, get_next_to_read, update_read_index}
use low_latency_electronic_t.Common.LfQueue.Refine
use low_latency_electronic_t.Common.LfQueue.Refine.{contents, push_refines, pop_refines, push_full}

-- Three blocks: the second is in use, the third is next.
abbrev three : MemPool ℕ
three = record {
  store = λ i. record { object = i; is_free = update (λ j. true) 1 false i };
  size = 3;
  next_free_index = 2;
}

three-IsValid : IsValid three
three-IsValid = record { in_range = omega arith; free = refl }

-- The pool after the third block is handed out.
abbrev three' : MemPool ℕ
three' = record {
  store = update three.store 2 (record { object = 7; is_free = false });
  size = 3;
  next_free_index = 0;
}

allocate-Allocated_example : Allocated three 7 2 three'
unfolding allocate scan
allocate-Allocated_example = allocate-Allocated three 7 {i = 2} {q = three'} three-IsValid refl

-- Two blocks with the first one free: the last free block is not handed out.
abbrev last_one : MemPool ℕ
last_one = record {
  store = λ i. record { object = i; is_free = update (λ j. false) 0 true i };
  size = 2;
  next_free_index = 0;
}

last_one_refused : allocate last_one 7 ≡ none
unfolding allocate scan
last_one_refused = refl

allocate-eq-none_example :
    (allocate last_one 7 ≡ none) ↔ ((j : ℕ) → j < 2 → j ≢ 0 → (last_one.store j).is_free ≡ false)
allocate-eq-none_example =
    allocate-eq-none last_one 7 (record { in_range = omega arith; free = refl })

deallocate_lem_example :
    (q : MemPool ℕ) × (deallocate three 1 ≡ some q)
    × IsValid q
    × (q.size ≡ 3)
    × (q.next_free_index ≡ 2)
    × (q.store 1 ≡ record { object = 1; is_free = true })
    × ((j : ℕ) → j ≢ 1 → q.store j ≡ three.store j)
deallocate_lem_example = deallocate_lem three 1 three-IsValid (omega arith) refl

agrees_example :
    ((obj : ℕ) → OptMemPool.allocate true three obj ≡ allocate three obj)
    × ((i : ℕ)
        → i < 3
        → (three.store i).is_free ≡ false
        → OptMemPool.deallocate true three i ≡ deallocate three i)
agrees_example = agrees true three three-IsValid

-- Two elements in a queue of three, round the end of the store.
abbrev wrapped : LfQueue ℕ
wrapped = record {
  store = update (update (λ i. 0) 2 8) 0 9;
  capacity = 3;
  next_write_index = 1;
  next_read_index = 2;
  num_elements = 2;
}

wrapped-IsValid : Refine.IsValid wrapped
wrapped-IsValid = record { read_in = omega arith; fits = omega arith; write_at = refl }

push_refines_example :
    (contents (push wrapped 5) ≡ 8 ∷ 9 ∷ 5 ∷ []) × Refine.IsValid (push wrapped 5)
push_refines_example = push_refines wrapped 5 wrapped-IsValid (omega arith)

pop_refines_example :
    ((contents wrapped ≡ [])
      × (get_next_to_read wrapped ≡ none)
      × (update_read_index wrapped ≡ none))
    ⊎ ((v : ℕ) × (q' : LfQueue ℕ) × (get_next_to_read wrapped ≡ some v)
        × (update_read_index wrapped ≡ some q')
        × Refine.IsValid q'
        × (contents wrapped ≡ v ∷ contents q'))
pop_refines_example = pop_refines wrapped wrapped-IsValid

abbrev full : LfQueue ℕ
full = record {
  store = update (λ i. 1) 1 2;
  capacity = 2;
  next_write_index = 1;
  next_read_index = 1;
  num_elements = 2;
}

push_full_example : (get_next_to_read (push full 5) ≡ some 5) × (2 < (push full 5).num_elements)
push_full_example =
    push_full full 5 (record { read_in = omega arith; fits = omega arith; write_at = refl }) refl
