-- ===== src/Trading/Gateway.antt =====
-- trading/order_gw/order_gateway.cpp: the client's end of the order connection. What the socket
-- received is the list of the whole messages in its buffer.
use low_latency_electronic_t.Prelude.{
  ℕ, ◌+◌, ◌≡◌, sym, ◌∙◌, List, [], ◌∷◌, ◌++◌, append_assoc, append-nil, length, ◌==◌, ◌&&◌,
  if◌then◌else◌, arith,
}
use low_latency_electronic_t.Exchange.Messages.{MeClientRequest, MeClientResponse, OmClientRequest}

-- The wire format of a response, as `OMClientResponse` of the exchange.
pub record SequencedResponse : Type 0 where
  pub seq_num : ℕ
  pub me_client_response : MeClientResponse

-- `written` is what was sent to the socket, `incoming_responses` what was written to the queue of
-- the trade engine, both oldest first.
pub record OrderGateway : Type 0 where
  pub client_id : ℕ
  pub next_outgoing_seq_num : ℕ
  pub next_exp_seq_num : ℕ
  pub written : List OmClientRequest
  pub incoming_responses : List MeClientResponse

-- The loop of `run` over the requests that wait in the queue.
unfoldable pub send_requests : List MeClientRequest → OrderGateway → OrderGateway
send_requests [] g = g
send_requests (r ∷ rs) g = send_requests rs (record g {
  next_outgoing_seq_num = g.next_outgoing_seq_num + 1;
  written = g.written ++ record { seq_num = g.next_outgoing_seq_num; me_client_request = r } ∷ [];
})

-- One message of `recvCallback`: those of another client, or out of sequence, are dropped.
unfoldable pub receive_one : SequencedResponse → OrderGateway → OrderGateway
receive_one m g =
    if m.me_client_response.client_id == g.client_id && m.seq_num == g.next_exp_seq_num
    then record g {
      next_exp_seq_num = g.next_exp_seq_num + 1;
      incoming_responses = g.incoming_responses ++ m.me_client_response ∷ [];
    }
    else g

unfoldable pub recv_callback : List SequencedResponse → OrderGateway → OrderGateway
recv_callback [] g = g
recv_callback (m ∷ ms) g = recv_callback ms (receive_one m g)

-- Requests numbered from `n` on.
abbrev pub number_requests : ℕ → List MeClientRequest → List OmClientRequest
number_requests n [] = []
number_requests n (r ∷ rs) =
    record { seq_num = n; me_client_request = r } ∷ number_requests (n + 1) rs

-- Every waiting request is written, in order, under consecutive sequence numbers.
pub send_requests_lem :
    (rs : List MeClientRequest) (g : OrderGateway)
    → ((send_requests rs g).written ≡ g.written ++ number_requests g.next_outgoing_seq_num rs)
      × ((send_requests rs g).next_outgoing_seq_num ≡ g.next_outgoing_seq_num + length rs)
unfolding send_requests
send_requests_lem [] g = (sym (append-nil g.written), omega arith)
send_requests_lem (r ∷ rs) g =
    let sent : OmClientRequest = record {
      seq_num = g.next_outgoing_seq_num;
      me_client_request = r;
    } in
    let ih = send_requests_lem rs (record g {
      next_outgoing_seq_num = g.next_outgoing_seq_num + 1;
      written = g.written ++ sent ∷ [];
    }) in
    (ih.0 ∙ append_assoc g.written (sent ∷ []) _, ih.1 ∙ omega arith)

-- The responses that count: those to this client whose numbers run on from `n`.
pub in_sequence : ℕ → ℕ → List SequencedResponse → List MeClientResponse
in_sequence c n [] = []
in_sequence c n (m ∷ ms) =
    let skipped = in_sequence c n ms in
    let taken = m.me_client_response ∷ in_sequence c (n + 1) ms in
    if m.me_client_response.client_id == c && m.seq_num == n then taken else skipped

-- What the trade engine gets of a buffer is the responses to its client whose sequence numbers run
-- on from the expected one without a gap or a repetition, in order; the expected number grows by
-- as many. The requests and the client id stay.
pub recv_callback_lem :
    (ms : List SequencedResponse) (g : OrderGateway)
    → let taken = in_sequence g.client_id g.next_exp_seq_num ms in
      recv_callback ms g ≡ record g {
        next_exp_seq_num = g.next_exp_seq_num + length taken;
        incoming_responses = g.incoming_responses ++ taken;
      }
unfolding recv_callback receive_one in_sequence
recv_callback_lem [] g = ground (arith, append-nil g.incoming_responses)
recv_callback_lem (m ∷ ms) g = ground (
  arith,
  recv_callback_lem ms (receive_one m g),
  append_assoc g.incoming_responses (m.me_client_response ∷ [])
      (in_sequence g.client_id (g.next_exp_seq_num + 1) ms),
)
