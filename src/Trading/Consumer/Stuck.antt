-- ===== src/Trading/Consumer/Stuck.antt =====
-- What a recovery of the consumer (trading/market_data/market_data_consumer.cpp) comes to.
use low_latency_electronic_t.Prelude.{
  ℕ, ◌+◌, ◌<◌, ◌≡◌, ◌⊎◌, ◌∙◌, refl, inl, inr, subst, Bool, true, false, Option, none, some, List,
  [], ◌∷◌, length, leb, arith, Bool-cases, Option-cases, ◌==◌, if◌then◌else◌, ltb, ◌-◌,
}
use low_latency_electronic_t.Exchange.Messages.{MeMarketUpdate, MdpMarketUpdate}
use low_latency_electronic_t.Trading.Consumer.{
  Consumer, QueuedMarketUpdates, init, is_start, is_end, last_message, snapshot_events,
  incremental_events, put, contains, leave, finish_recovery, check_snapshot_sync, queue_message,
  receive_one, receive_all, slide, recv_callback, start_snapshot_sync,
}
use low_latency_electronic_t.Trading.Consumer.FromSnapshot.{recv_callback-overrun}

-- The last message of a queue is the end of a snapshot.
abbrev finished : QueuedMarketUpdates → Bool
finished [] = false
finished ((k, u) ∷ m) = is_end (last_message u m).type

-- A consumer in recovery, its snapshot socket set up, whose queue does not end a snapshot.
abbrev pub Waiting : Consumer → Type 0
Waiting c = (c.in_recovery ≡ true) × (c.joined ≡ true) × (finished c.snapshot_queued_msgs ≡ false)

-- The recovery goes on, and nothing is forwarded.
abbrev Kept : Consumer → Consumer → Type 0
Kept c c' = Waiting c' × (c'.forwarded ≡ c.forwarded) × (c'.snapshot_valid ≡ c.snapshot_valid)

finish_recovery-cases :
    (last : MeMarketUpdate) (events : List MeMarketUpdate) (c : Consumer)
    → c.in_recovery ≡ true
    → c.joined ≡ true
    → Kept c (finish_recovery last events c) ⊎ ((finish_recovery last events c).snapshot_valid ≡ 0)
unfolding finish_recovery leave
finish_recovery-cases last events c r j =
    elim (Option-cases ((incremental_events (last.order_id + 1) c.incremental_queued_msgs).1)) [
      | inl e ↦ inl (ground arith)
      | inr (us, e) ↦ inr (ground arith)
    ]

check-cases :
    (q : QueuedMarketUpdates) (c : Consumer)
    → c.snapshot_queued_msgs ≡ q
    → c.in_recovery ≡ true
    → c.joined ≡ true
    → Kept c (check_snapshot_sync c)
      ⊎ ((finished q ≡ true) × ((check_snapshot_sync c).snapshot_valid ≡ 0))
unfolding check_snapshot_sync
check-cases [] c h r j = inl (ground arith)
check-cases ((k, u) ∷ m) c h r j = elim (Bool-cases (is_start u.type)) [
  | inr e ↦ inl (ground arith)
  | inl e ↦ elim (Option-cases (snapshot_events 0 ((k, u) ∷ m))) [
    | inl n ↦ inl (ground arith)
    | inr (us, n) ↦ elim (Bool-cases (is_end (last_message u m).type)) [
      | inr f ↦ inl (ground arith)
      | inl f ↦ elim (finish_recovery-cases (last_message u m) us c r j) [
        | inl x ↦ inl (ground arith)
        | inr x ↦ inr (f, ground arith)
      ]
    ]
  ]
]

queue_message-snapshot :
    (m : MdpMarketUpdate) (c : Consumer)
    → c.in_recovery ≡ true
    → c.joined ≡ true
    → Kept c (queue_message true m c) ⊎ ((queue_message true m c).snapshot_valid ≡ 0)
unfolding queue_message
queue_message-snapshot m c r j =
    let queued = if contains m.seq_num c.snapshot_queued_msgs then [] else c.snapshot_queued_msgs in
    let q = put m.seq_num m.me_market_update queued in
    elim (check-cases q (record c { snapshot_queued_msgs = q }) refl r j) [
      | inl k ↦ inl k
      | inr k ↦ inr k.1
    ]

queue_message-incremental :
    (m : MdpMarketUpdate) (c : Consumer) → Waiting c → Kept c (queue_message false m c)
unfolding queue_message
queue_message-incremental m c (r, j, f) =
    let c' : Consumer = record c {
      incremental_queued_msgs = put m.seq_num m.me_market_update c.incremental_queued_msgs;
    } in
    elim (check-cases c.snapshot_queued_msgs c' refl r j) [
      | inl k ↦ k
      | inr k ↦ absurd (ground (arith, k.0))
    ]

-- The loop over snapshot frames keeps the recovery, or stops at the frame that ends it.
snapshot-loop :
    (ms : List MdpMarketUpdate) (i : ℕ) (c : Consumer)
    → Waiting c
    → (j : ℕ) × (c' : Consumer) × (receive_all true i ms c ≡ some (j, c'))
      × (Kept c c' ⊎ (c'.snapshot_valid < j))
unfolding receive_all receive_one
snapshot-loop [] i c w = (i, c, refl, inl (w, refl, refl))
snapshot-loop (m ∷ ms) i c w = elim (Bool-cases (leb c.snapshot_valid i)) [
  | inl e ↦ (i, c, ground arith, inl (w, refl, refl))
  | inr e ↦ elim (queue_message-snapshot m c w.0 w.1) [
    | inl k ↦
        let (j, c', e', rest) = snapshot-loop ms (i + 1) (queue_message true m c) k.0 in
        (
          j,
          c',
          ground arith,
          elim rest [ inl k' ↦ inl (k'.0, k'.1 ∙ k.1, k'.2 ∙ k.2) | inr h ↦ inr h ],
        )
    | inr z ↦ (i + 1, queue_message true m c, gone ms m i c w.0 e z, inr (omega (arith, z)))
  ]
]
  where
    gone :
        (ms : List MdpMarketUpdate) (m : MdpMarketUpdate) (i : ℕ) (c : Consumer)
        → c.in_recovery ≡ true
        → leb c.snapshot_valid i ≡ false
        → (queue_message true m c).snapshot_valid ≡ 0
        → receive_all true i (m ∷ ms) c ≡ some (i + 1, queue_message true m c)
    gone [] m i c r e z = ground arith
    gone (x ∷ xs) m i c r e z = ground arith

incremental-loop :
    (ms : List MdpMarketUpdate) (i : ℕ) (c : Consumer)
    → Waiting c
    → (j : ℕ) × (c' : Consumer) × (receive_all false i ms c ≡ some (j, c')) × Kept c c'
unfolding receive_all receive_one
incremental-loop [] i c w = (i, c, refl, (w, refl, refl))
incremental-loop (m ∷ ms) i c w =
    let k = queue_message-incremental m c w in
    let (j, c', e, k') = incremental-loop ms (i + 1) (queue_message false m c) k.0 in
    (j, c', ground arith, (k'.0, k'.1 ∙ k.1, k'.2 ∙ k.2))

-- The recovery goes on after a call, with nothing forwarded.
abbrev pub StillWaiting : Consumer → Option Consumer → Type 0
StillWaiting c r =
    (r ≡ none) ⊎ ((c' : Consumer) × (r ≡ some c') × Waiting c' × (c'.forwarded ≡ c.forwarded))

recv_callback-StillWaiting :
    (is_snapshot : Bool) (ms : List MdpMarketUpdate) (c : Consumer)
    → Waiting c
    → StillWaiting c (recv_callback is_snapshot ms c)
unfolding recv_callback slide
recv_callback-StillWaiting false ms c w =
    let (j, c', e, k) = incremental-loop ms 0 c w in inr (c', ground arith, k.0, k.1)
recv_callback-StillWaiting true ms c w =
    let read : Consumer = record c { snapshot_valid = length ms } in
    let (j, c', e, rest) = snapshot-loop ms 0 read w in
    elim rest [
      | inr h ↦ inl (recv_callback-overrun ms (length ms) j c c' w.0 refl e h)
      | inl k ↦ elim (Bool-cases (ltb c'.snapshot_valid j)) [
        | inl h ↦ inl (recv_callback-overrun ms (length ms) j c c' w.0 refl e (ground arith))
        | inr h ↦ inr (
          record c' { snapshot_valid = c'.snapshot_valid - j },
          ground (arith, w.0, e, h),
          k.0,
          k.1,
        )
      ]
    ]

-- Out of recovery, or waiting in one.
abbrev Known : Consumer → Type 0
Known c = (c.in_recovery ≡ false) ⊎ Waiting c

Waiting-same : (c c' : Consumer) → c ≡ c' → Waiting c → Waiting c'
Waiting-same c c' e w = subst Waiting e w

Known-same : (c c' : Consumer) → c ≡ c' → Known c → Known c'
Known-same c c' e k = subst Known e k

queue_message-starts :
    (m : MdpMarketUpdate) (c c' : Consumer)
    → start_snapshot_sync c ≡ some c'
    → c.in_recovery ≡ true
    → Waiting (queue_message false m c')
unfolding start_snapshot_sync
queue_message-starts m c c' e r =
    (queue_message-incremental m c' (ground arith, ground arith, ground arith)).0

receive_one-Known :
    (m : MdpMarketUpdate) (c c' : Consumer) → Known c → receive_one false m c ≡ some c' → Known c'
unfolding receive_one
receive_one-Known m c c' (inr w) e =
    let k = queue_message-incremental m c w in
    inr (Waiting-same (queue_message false m c) c' (ground arith) k.0)
receive_one-Known m c c' (inl r) e = elim (Bool-cases (m.seq_num == c.next_exp_inc_seq_num)) [
  | inl n ↦ inl (ground arith)
  | inr n ↦ elim (Option-cases (start_snapshot_sync (record c { in_recovery = true }))) [
    | inl z ↦ absurd (ground arith)
    | inr (s, z) ↦ inr (
        Waiting-same (queue_message false m s) c' (ground (arith, e, z, n, r))
          (queue_message-starts m (record c { in_recovery = true }) s z refl))
  ]
]

receive_all-Known :
    (ms : List MdpMarketUpdate) (i j : ℕ) (c c' : Consumer)
    → Known c
    → receive_all false i ms c ≡ some (j, c')
    → Known c'
unfolding receive_all
receive_all-Known [] i j c c' k e = Known-same c c' (ground arith) k
receive_all-Known (m ∷ ms) i j c c' k e = elim (Option-cases (receive_one false m c)) [
  | inl z ↦ absurd (ground arith)
  | inr (s, z) ↦ receive_all-Known ms (i + 1) j s c' (receive_one-Known m c s k z) (ground arith)
]

-- A history of calls: the stream and the messages of each buffer.
unfoldable pub run : List (Bool × List MdpMarketUpdate) → Consumer → Option Consumer
unfolding recv_callback
run [] c = some c
run ((is_snapshot, ms) ∷ calls) c = elim (recv_callback is_snapshot ms c) [
  | none ↦ none
  | some c' ↦ run calls c'
]

recv_callback-Known :
    (is_snapshot : Bool) (ms : List MdpMarketUpdate) (c c' : Consumer)
    → Known c
    → recv_callback is_snapshot ms c ≡ some c'
    → Known c'
unfolding recv_callback slide
recv_callback-Known is_snapshot ms c c' (inr w) e =
    elim (recv_callback-StillWaiting is_snapshot ms c w) [
      | inl z ↦ absurd (ground (arith, z, e))
      | inr (d, z, w', _) ↦ inr (Waiting-same d c' (ground (arith, z, e)) w')
    ]
recv_callback-Known true ms c c' (inl r) e = inl (ground arith)
recv_callback-Known false ms c c' (inl r) e = elim (Option-cases (receive_all false 0 ms c)) [
  | inl z ↦ absurd (ground arith)
  | inr (p, z) ↦ receive_all-Known ms 0 p.0 c c' (inl r) (ground arith)
]

run-Known :
    (calls : List (Bool × List MdpMarketUpdate)) (c c' : Consumer)
    → Known c
    → run calls c ≡ some c'
    → Known c'
unfolding run
run-Known [] c c' k e = Known-same c c' (ground arith) k
run-Known ((is_snapshot, ms) ∷ calls) c c' k e =
    elim (Option-cases (recv_callback is_snapshot ms c)) [
      | inl z ↦ absurd (ground arith)
      | inr (s, z) ↦
          run-Known calls s c' (recv_callback-Known is_snapshot ms c s k z) (ground arith)
    ]

run-StillWaiting :
    (calls : List (Bool × List MdpMarketUpdate)) (c : Consumer)
    → Waiting c
    → StillWaiting c (run calls c)
unfolding run
run-StillWaiting [] c w = inr (c, refl, w, refl)
run-StillWaiting ((is_snapshot, ms) ∷ calls) c w =
    elim (recv_callback-StillWaiting is_snapshot ms c w) [
      | inl z ↦ inl (ground arith)
      | inr (s, z, w', f) ↦ elim (run-StillWaiting calls s w') [
        | inl n ↦ inl (ground arith)
        | inr (d, n, w'', f') ↦ inr (d, ground arith, w'', f' ∙ f)
      ]
    ]

-- If a client that starts with the engine is in recovery after some history of calls of
-- recvCallback, whatever the buffers held, then over any further calls a call does not return (its
-- memcpy runs past the buffer), or the client is still in recovery, its snapshot socket set up, and
-- has forwarded nothing more.
pub run-init-StillWaiting :
    (before after : List (Bool × List MdpMarketUpdate)) (can_join : Bool) {c : Consumer}
    → run before (init can_join) ≡ some c
    → c.in_recovery ≡ true
    → StillWaiting c (run after c)
unfolding init
run-init-StillWaiting before after can_join {c} e r =
    run-StillWaiting after c (elim (run-Known before (init can_join) c (inl refl) e) [
      | inl out ↦ absurd (ground (arith, out, r))
      | inr w ↦ w
    ])
