-- ===== src/Common/LfQueue/Refine.antt =====
-- The queue (common/lf_queue.h) as a bounded FIFO of its contents, and what a push into a full
-- queue does.
use native.Mathlib.Nat.{mod-add-mod, mod-eq_of_lt, mod-eq-sub-mod, add-zero, mod-lt}
use native.Mathlib.Decide.{dec_lt}
use mathlib.Core.Path.{ap₂}
use native.Mathlib.Numerals.{add-one}
use low_latency_electronic_t.Prelude.{
  ℕ, zero, suc, ◌+◌, ◌-◌, ◌%◌, ◌≤◌, ◌<◌, ◌≡◌, ◌≢◌, ◌⊎◌, inl, inr, Bool-cases, refl, sym, ap, ◌∙◌,
  none, some, List, [], ◌∷◌, ◌++◌, ◌==◌, update, update_ne, update_self, arith, length,
}
use low_latency_electronic_t.Common.LfQueue.{
  LfQueue, init, push, get_next_to_read, update_read_index,
}

-- Fewer than `c` steps round the ring do not come back to the start.
add-mod-ne : {c h k : ℕ} → h < c → suc k < c → (h + suc k) % c ≢ h
add-mod-ne {c} {h} {k} hh hk = elim (dec_lt (h + suc k) c) [
  | yes p ↦ omega (arith, mod-eq_of_lt p)
  | no p ↦ omega (
    arith,
    mod-eq-sub-mod {n = h + suc k} {m = c} (omega arith),
    mod-eq_of_lt {n = h + suc k - c} {m = c} (omega arith),
  )
]

shift-mod : (h n c : ℕ) → (h + suc n) % c ≡ ((h + 1) % c + n) % c
shift-mod h n c = rw mod-add-mod (ap (λ k. k % c) (omega arith))

module _ {ℓ} {T : Type ℓ} where
  -- The `n` elements from index `h` on, going round at `capacity`.
  abbrev pub window : (ℕ → T) → ℕ → ℕ → ℕ → List T
  window store capacity h zero = []
  window store capacity h (suc n) = store h ∷ window store capacity ((h + 1) % capacity) n

  -- What the queue holds, oldest first.
  abbrev pub contents : LfQueue T → List T
  contents q = window q.store q.capacity q.next_read_index q.num_elements

  pub record IsValid (q : LfQueue T) : Type ℓ where
    pub read_in : q.next_read_index < q.capacity
    pub fits : q.num_elements ≤ q.capacity
    pub write_at : q.next_write_index ≡ (q.next_read_index + q.num_elements) % q.capacity

  length-window : (f : ℕ → T) (c h n : ℕ) → length (window f c h n) ≡ n
  length-window f c h zero = refl
  length-window f c h (suc n) = ap suc (length-window f c ((h + 1) % c) n)

  window_of_ne_zero :
      (f : ℕ → T) (c h n : ℕ) → n ≢ 0 → window f c h n ≡ f h ∷ window f c ((h + 1) % c) (n - 1)
  window_of_ne_zero f c h zero p = absurd (p refl)
  window_of_ne_zero f c h (suc n) p = ap (λ k. window f c h (suc k)) (omega arith)

  window-update :
      (f : ℕ → T) (c : ℕ) (v : T) (n h i : ℕ)
      → h < c
      → n < c
      → i ≡ (h + n) % c
      → window (update f i v) c h (suc n) ≡ window f c h n ++ (v ∷ [])
  window-update f c v zero h i hh hn e = rw (e, add-zero, mod-eq_of_lt hh, update_self f h v) refl
  window-update f c v (suc n) h i hh hn e =
      ap₂ ◌∷◌ (update_ne f i v h (λ q. add-mod-ne hh hn (sym e ∙ sym q))) (
        window-update f c v n ((h + 1) % c) i (mod-lt (h + 1) (omega arith)) (omega arith)
          (e ∙ shift-mod h n c))

  -- A new queue is valid and empty.
  pub init-IsValid : (n : ℕ) (d : T) → 0 < n → IsValid (init n d) × (contents (init n d) ≡ [])
  unfolding init
  init-IsValid n d h =
      (record { read_in = h; fits = omega arith; write_at = sym (mod-eq_of_lt h) }, refl)

  -- A push into a valid queue with room puts the element behind all others, and the queue stays
  -- valid.
  pub push_refines :
      (q : LfQueue T) (v : T)
      → IsValid q
      → q.num_elements < q.capacity
      → (contents (push q v) ≡ contents q ++ (v ∷ [])) × IsValid (push q v)
  unfolding push
  push_refines q v ok room = (
    rw add-one (
        window-update q.store q.capacity v q.num_elements q.next_read_index q.next_write_index
          ok.read_in room ok.write_at),
    record {
      read_in = ok.read_in;
      fits = omega arith;
      write_at = rw (ok.write_at, mod-add-mod) (ap (λ k. k % q.capacity) (omega arith));
    },
  )

  pub push-size :
      (q : LfQueue T) (v : T)
      → ((push q v).num_elements ≡ q.num_elements + 1) × ((push q v).capacity ≡ q.capacity)
  unfolding push
  push-size q v = (refl, refl)

  -- For a valid queue a read gives the oldest element, and none exactly of an empty queue;
  -- `updateReadIndex` takes that element away, and ends the process exactly at an empty queue.
  pub pop_refines :
      (q : LfQueue T)
      → IsValid q
      → ((contents q ≡ []) × (get_next_to_read q ≡ none) × (update_read_index q ≡ none))
        ⊎ ((v : T) × (q' : LfQueue T) × (get_next_to_read q ≡ some v)
            × (update_read_index q ≡ some q')
            × IsValid q'
            × (contents q ≡ v ∷ contents q'))
  unfolding get_next_to_read update_read_index
  pop_refines q ok = elim (Bool-cases (q.num_elements == 0)) [
    | inl e ↦ inl (
      ap (window q.store q.capacity q.next_read_index) {y = 0} (ground arith),
      rw e refl,
      rw e refl,
    )
    | inr e ↦ inr (
      q.store q.next_read_index,
      record q {
        next_read_index = (q.next_read_index + 1) % q.capacity;
        num_elements = q.num_elements - 1;
      },
      rw e refl,
      rw e refl,
      record {
        read_in = mod-lt (q.next_read_index + 1) (omega arith);
        fits = omega arith;
        write_at = rw (ok.write_at, mod-add-mod) (ap (λ k. k % q.capacity) (ground arith));
      },
      window_of_ne_zero q.store q.capacity q.next_read_index q.num_elements (ground arith),
    )
  ]

  -- A push into a valid full queue is not refused: it overwrites the oldest element, which is lost,
  -- and the count exceeds the capacity.
  pub push_full :
      (q : LfQueue T) (v : T)
      → IsValid q
      → q.num_elements ≡ q.capacity
      → (get_next_to_read (push q v) ≡ some v) × (q.capacity < (push q v).num_elements)
  unfolding push get_next_to_read
  push_full q v ok full = ground (
    arith,
    mod-eq-sub-mod {n = q.next_read_index + q.num_elements} {m = q.capacity},
    mod-eq_of_lt {n = q.next_read_index} {m = q.capacity},
  )
