-- ===== src/Exchange/OrderServer/Receive.antt =====
-- Which requests the server (exchange/order_server/order_server.h) stages for the engine.
use low_latency_electronic_t.Prelude.{
  ℕ, suc, ◌+◌, ◌<◌, ◌≡◌, ◌≢◌, ◌⊎◌, inl, inr, none, some, List, [], ◌∷◌, ◌++◌, length, arith,
  Option-cases, Bool-cases, update, ◌==◌, if◌then◌else◌,
}
use low_latency_electronic_t.Common.Types.{me_max_num_clients}
use low_latency_electronic_t.Exchange.Messages.{OmClientRequest}
use low_latency_electronic_t.Exchange.Sequencer.{RecvTimeClientRequest, me_max_pending_requests}
use low_latency_electronic_t.Exchange.OrderServer.{
  OrderServer, bind_socket, receive_one, recv_callback,
}

-- The staged requests.
abbrev pub pending : OrderServer → List RecvTimeClientRequest
pending s = s.fifo_sequencer.pending

-- The message is the next one of a client that is on this socket, or on none so far.
abbrev pub Expected : ℕ → OmClientRequest → OrderServer → Type 0
Expected socket m s =
    (m.seq_num ≡ s.cid_next_exp_seq_num m.me_client_request.client_id)
    × ((s.cid_tcp_socket m.me_client_request.client_id ≡ none)
        ⊎ (s.cid_tcp_socket m.me_client_request.client_id ≡ some socket))

-- The state once a message is staged.
abbrev stage : ℕ → OmClientRequest → OrderServer → OrderServer
stage rx_time m s = record s {
  cid_next_exp_seq_num =
      update s.cid_next_exp_seq_num m.me_client_request.client_id
        (s.cid_next_exp_seq_num m.me_client_request.client_id + 1);
  fifo_sequencer = record s.fifo_sequencer {
    pending = pending s ++ record { recv_time = rx_time; request = m.me_client_request } ∷ [];
  };
}

-- How many staged requests a client has.
abbrev pub count_of : ℕ → List RecvTimeClientRequest → ℕ
count_of c [] = 0
count_of c (r ∷ rs) = if r.request.client_id == c then suc (count_of c rs) else count_of c rs

count_of-append :
    (c : ℕ) (xs ys : List RecvTimeClientRequest)
    → count_of c (xs ++ ys) ≡ count_of c xs + count_of c ys
count_of-append c [] ys = omega arith
count_of-append c (x ∷ xs) ys = ground (arith, count_of-append c xs ys)

module _ (socket rx_time : ℕ) where
  receive_one-count :
      (m : OmClientRequest) (s : OrderServer) {s' : OrderServer} (c : ℕ)
      → receive_one socket rx_time m s ≡ some s'
      → count_of c (pending s') + s.cid_next_exp_seq_num c
        ≡ count_of c (pending s) + s'.cid_next_exp_seq_num c
  unfolding receive_one
  receive_one-count m s {s'} c e = ground (
    arith,
    count_of-append c (pending s)
        (record { recv_time = rx_time; request = m.me_client_request } ∷ []),
  )

  receive_one-Expected :
      (m : OmClientRequest) (s : OrderServer)
      → m.me_client_request.client_id < me_max_num_clients
      → length (pending s) < me_max_pending_requests
      → Expected socket m s
      → (s' : OrderServer) × (receive_one socket rx_time m s ≡ some s')
        × (pending s'
            ≡ pending s ++ record { recv_time = rx_time; request = m.me_client_request } ∷ [])
        × (s'.cid_next_exp_seq_num m.me_client_request.client_id ≡ m.seq_num + 1)
        × ((c : ℕ)
            → c ≢ m.me_client_request.client_id
            → s'.cid_next_exp_seq_num c ≡ s.cid_next_exp_seq_num c)
        × (s'.cid_tcp_socket m.me_client_request.client_id ≡ some socket)
  unfolding receive_one
  receive_one-Expected m s h k expected = (
    stage rx_time m (bind_socket socket m.me_client_request.client_id s),
    ground arith,
    ground arith,
    ground arith,
    λ c ne. ground arith,
    ground arith,
  )

  receive_one-not-Expected :
      (m : OmClientRequest) (s : OrderServer)
      → m.me_client_request.client_id < me_max_num_clients
      → ¬ (Expected socket m s)
      → (s' : OrderServer) × (receive_one socket rx_time m s ≡ some s')
        × (pending s' ≡ pending s)
        × (s'.cid_next_exp_seq_num ≡ s.cid_next_exp_seq_num)
  unfolding receive_one
  receive_one-not-Expected m s h n =
      (bind_socket socket m.me_client_request.client_id s, ground arith, ground arith, ground arith)

  -- What a message does: the next one of a client on its own socket is staged with its receive time
  -- behind all others, and the client's next number is expected from then on; any other message
  -- changes neither the staged requests nor the sequence numbers.
  abbrev pub Answered : OmClientRequest → OrderServer → OrderServer → Type 0
  Answered m s s' =
      (Expected socket m s
        × (pending s'
            ≡ pending s ++ record { recv_time = rx_time; request = m.me_client_request } ∷ [])
        × (s'.cid_next_exp_seq_num m.me_client_request.client_id ≡ m.seq_num + 1)
        × ((c : ℕ)
            → c ≢ m.me_client_request.client_id
            → s'.cid_next_exp_seq_num c ≡ s.cid_next_exp_seq_num c)
        × (s'.cid_tcp_socket m.me_client_request.client_id ≡ some socket))
      ⊎ ((¬ (Expected socket m s))
          × (pending s' ≡ pending s)
          × (s'.cid_next_exp_seq_num ≡ s.cid_next_exp_seq_num))

  Expected-cases :
      (m : OmClientRequest) (s : OrderServer) → Expected socket m s ⊎ (¬ (Expected socket m s))
  Expected-cases m s =
      let client = m.me_client_request.client_id in
      elim (Bool-cases (m.seq_num == s.cid_next_exp_seq_num client)) [
        | inr late ↦ inr (λ h. ground (arith, h.0))
        | inl next ↦ elim (Option-cases (s.cid_tcp_socket client)) [
          | inl free ↦ inl (ground arith, inl free)
          | inr (k, bound) ↦ elim (Bool-cases (k == socket)) [
            | inl own ↦ inl (ground arith, inr (ground arith))
            | inr other ↦ inr (λ h. ground (arith, h.1))
          ]
        ]
      ]

  -- A message of a client id in range, while fewer than 1024 requests are staged, is handled to its
  -- end: staged behind all others, with its receive time, if it is the next one of its client, on
  -- the client's socket or with none bound so far, and then the client's next sequence number is
  -- expected and no other client's changes; without a change of the staged requests and of the
  -- sequence numbers otherwise.
  pub receive_one-Answered :
      (m : OmClientRequest) (s : OrderServer)
      → m.me_client_request.client_id < me_max_num_clients
      → length (pending s) < me_max_pending_requests
      → (s' : OrderServer) × (receive_one socket rx_time m s ≡ some s') × Answered m s s'
  receive_one-Answered m s h k = elim (Expected-cases m s) [
    | inl x ↦
        let (s', e, p, n, o, b) = receive_one-Expected m s h k x in (s', e, inl (x, p, n, o, b))
    | inr n ↦ let (s', e, p, o) = receive_one-not-Expected m s h n in (s', e, inr (n, p, o))
  ]

  -- Over a whole buffer that is read to its end, each client's expected number grows by the number
  -- of its staged requests.
  pub recv_callback-count :
      (ms : List OmClientRequest) (s : OrderServer) {s' : OrderServer} (c : ℕ)
      → recv_callback socket rx_time ms s ≡ some s'
      → count_of c (pending s') + s.cid_next_exp_seq_num c
        ≡ count_of c (pending s) + s'.cid_next_exp_seq_num c
  unfolding recv_callback
  recv_callback-count [] s c e = ground arith
  recv_callback-count (m ∷ ms) s c e = elim (Option-cases (receive_one socket rx_time m s)) [
    | inl d ↦ absurd (ground arith)
    | inr (t, d) ↦
        omega (
          arith,
          receive_one-count m s c d,
          recv_callback-count ms t c (rw (d, recv_callback) at e),
        )
  ]
