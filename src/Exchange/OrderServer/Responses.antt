-- ===== src/Exchange/OrderServer/Responses.antt =====
-- What the server (exchange/order_server/order_server.h) writes to the clients.
use low_latency_electronic_t.Prelude.{
  ℕ, zero, suc, ◌+◌, ◌<◌, ◌≡◌, refl, ap, ◌∙◌, some, List, [], ◌∷◌, map, arith, update, ◌==◌,
  if◌then◌else◌,
}
use low_latency_electronic_t.Common.Types.{me_max_num_clients}
use low_latency_electronic_t.Exchange.Messages.{MeClientResponse}
use low_latency_electronic_t.Exchange.OrderServer.{OrderServer, OmClientResponse, drain_responses}

-- The responses to one client.
abbrev pub count_of : ℕ → List MeClientResponse → ℕ
count_of c [] = 0
count_of c (r ∷ rs) = if r.client_id == c then suc (count_of c rs) else count_of c rs

-- The sequence numbers written to one client.
abbrev pub seqs_of : ℕ → List OmClientResponse → List ℕ
seqs_of c [] = []
seqs_of c (w ∷ ws) =
    if w.me_client_response.client_id == c then w.seq_num ∷ seqs_of c ws else seqs_of c ws

-- `n` and the numbers after it.
abbrev pub numbers_from : ℕ → ℕ → List ℕ
numbers_from n zero = []
numbers_from n (suc k) = n ∷ numbers_from (n + 1) k

-- Every response goes to the socket that its client is bound to.
abbrev pub ToOwnSocket : OrderServer → List OmClientResponse → Type 0
ToOwnSocket s [] = Unit {0}
ToOwnSocket s (w ∷ ws) =
    (s.cid_tcp_socket w.me_client_response.client_id ≡ some w.socket) × ToOwnSocket s ws

-- Every client has an id below 256 and a socket.
abbrev pub Reachable : OrderServer → List MeClientResponse → Type 0
Reachable s [] = Unit {0}
Reachable s (r ∷ rs) =
    (r.client_id < me_max_num_clients)
    × ((k : ℕ) × (s.cid_tcp_socket r.client_id ≡ some k))
    × Reachable s rs

Reachable-same :
    (s t : OrderServer) (rs : List MeClientResponse)
    → t.cid_tcp_socket ≡ s.cid_tcp_socket
    → Reachable s rs
    → Reachable t rs
Reachable-same s t [] e h = tt
Reachable-same s t (r ∷ rs) e (h, (k, p), l) =
    (h, (k, ap (λ f. f r.client_id) e ∙ p), Reachable-same s t rs e l)

ToOwnSocket-same :
    (s t : OrderServer) (ws : List OmClientResponse)
    → s.cid_tcp_socket ≡ t.cid_tcp_socket
    → ToOwnSocket t ws
    → ToOwnSocket s ws
ToOwnSocket-same s t [] e h = tt
ToOwnSocket-same s t (w ∷ ws) e (h, l) =
    (ap (λ f. f w.me_client_response.client_id) e ∙ h, ToOwnSocket-same s t ws e l)

-- If every client has a socket, all waiting responses are written, in order, each to the socket of
-- its client, and for each client the sequence numbers of its responses run on from its next one
-- without a gap.
pub drain_responses_lem :
    (rs : List MeClientResponse) (s : OrderServer)
    → Reachable s rs
    → (ws : List OmClientResponse) × (s' : OrderServer) × (drain_responses rs s ≡ some (ws, s'))
      × (map (λ w. w.me_client_response) ws ≡ rs)
      × ToOwnSocket s ws
      × ((c : ℕ) → seqs_of c ws ≡ numbers_from (s.cid_next_outgoing_seq_num c) (count_of c rs))
      × ((c : ℕ) → s'.cid_next_outgoing_seq_num c ≡ s.cid_next_outgoing_seq_num c + count_of c rs)
unfolding drain_responses
drain_responses_lem [] s h = ([], s, refl, refl, tt, λ c. refl, λ c. omega arith)
drain_responses_lem (r ∷ rs) s (h, (k, p), l) =
    let w : OmClientResponse = record {
      socket = k;
      seq_num = s.cid_next_outgoing_seq_num r.client_id;
      me_client_response = r;
    } in
    let t : OrderServer = record s {
      cid_next_outgoing_seq_num =
          update s.cid_next_outgoing_seq_num r.client_id
            (s.cid_next_outgoing_seq_num r.client_id + 1);
    } in
    let (ws, s', e, m, o, q, n) = drain_responses_lem rs t (Reachable-same s t rs refl l) in
    (
      w ∷ ws,
      s',
      ground arith,
      ap (◌∷◌ r) m,
      (p, ToOwnSocket-same s t ws refl o),
      λ c. ground (arith, q c),
      λ c. ground (arith, n c),
    )
