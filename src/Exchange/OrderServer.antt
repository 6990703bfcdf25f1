-- ===== src/Exchange/OrderServer.antt =====
-- exchange/order_server/order_server.h: the gateway for the clients' TCP connections. A socket is
-- a number; what it received is the list of the whole messages in its buffer. `none` is the end
-- of the process by `FATAL` or `ASSERT`, or an index past the end of an array, which the code
-- does not check.
pub mod Receive
pub mod Responses
use low_latency_electronic_t.Prelude.{
  ℕ, ◌+◌, Option, none, some, List, [], ◌∷◌, ◌++◌, ltb, ◌==◌, ptr_eq, if◌then◌else◌, update,
}
use low_latency_electronic_t.Common.Types.{me_max_num_clients}
use low_latency_electronic_t.Exchange.Messages.{OmClientRequest, MeClientResponse}
use low_latency_electronic_t.Exchange.Sequencer.{
  FifoSequencer, Sort, add_client_request, sequence_and_publish,
}

pub record OrderServer : Type 0 where
  pub cid_next_outgoing_seq_num : ℕ → ℕ
  pub cid_next_exp_seq_num : ℕ → ℕ
  pub cid_tcp_socket : ℕ → Option ℕ
  pub fifo_sequencer : FifoSequencer

-- The constructor fills the arrays: the sequence numbers start at 1.
unfoldable pub init : FifoSequencer → OrderServer
init f = record {
  cid_next_outgoing_seq_num = λ c. 1;
  cid_next_exp_seq_num = λ c. 1;
  cid_tcp_socket = λ c. none;
  fifo_sequencer = f;
}

-- The first message of a client binds it to its socket.
unfoldable pub bind_socket : ℕ → ℕ → OrderServer → OrderServer
bind_socket socket client s = elim (s.cid_tcp_socket client) [
  | none ↦ record s { cid_tcp_socket = update s.cid_tcp_socket client (some socket) }
  | some bound ↦ s
]

-- The sequence check, and the handover to the sequencer.
unfoldable pub accept_request : ℕ → OmClientRequest → OrderServer → Option OrderServer
unfolding add_client_request
accept_request rx_time m s =
    let client = m.me_client_request.client_id in
    if m.seq_num == s.cid_next_exp_seq_num client
    then elim (add_client_request rx_time m.me_client_request s.fifo_sequencer) [
      | none ↦ none
      | some f ↦ some (record s {
        cid_next_exp_seq_num =
            update s.cid_next_exp_seq_num client (s.cid_next_exp_seq_num client + 1);
        fifo_sequencer = f;
      })
    ]
    else some s

-- One message: a client on another socket than its own is ignored.
unfoldable pub receive_one : ℕ → ℕ → OmClientRequest → OrderServer → Option OrderServer
unfolding bind_socket accept_request
receive_one socket rx_time m s =
    let client = m.me_client_request.client_id in
    let bound = bind_socket socket client s in
    if ltb client me_max_num_clients
    then (if ptr_eq (bound.cid_tcp_socket client) (some socket)
        then accept_request rx_time m bound
        else some bound)
    else none

-- `recvCallback`: the loop over the whole messages of the buffer.
unfoldable pub recv_callback : ℕ → ℕ → List OmClientRequest → OrderServer → Option OrderServer
unfolding receive_one
recv_callback socket rx_time [] s = some s
recv_callback socket rx_time (m ∷ ms) s = elim (receive_one socket rx_time m s) [
  | none ↦ none
  | some s' ↦ recv_callback socket rx_time ms s'
]

unfoldable pub recv_finished_callback : Sort → OrderServer → OrderServer
unfolding sequence_and_publish
recv_finished_callback sort s = record s {
  fifo_sequencer = sequence_and_publish sort s.fifo_sequencer;
}

-- What is written to a socket: a sequence number and a response.
pub record OmClientResponse : Type 0 where
  pub socket : ℕ
  pub seq_num : ℕ
  pub me_client_response : MeClientResponse

-- One response of the loop in `run`: it goes to the socket of its client.
unfoldable pub send_response :
    MeClientResponse → OrderServer → Option (OmClientResponse × OrderServer)
send_response r s =
    if ltb r.client_id me_max_num_clients
    then elim (s.cid_tcp_socket r.client_id) [
      | none ↦ none
      | some socket ↦ some (
        record {
          socket = socket;
          seq_num = s.cid_next_outgoing_seq_num r.client_id;
          me_client_response = r;
        },
        record s {
          cid_next_outgoing_seq_num =
              update s.cid_next_outgoing_seq_num r.client_id
                (s.cid_next_outgoing_seq_num r.client_id + 1);
        },
      )
    ]
    else none

-- The loop over the responses that wait in the queue.
unfoldable pub drain_responses :
    List MeClientResponse → OrderServer → Option (List OmClientResponse × OrderServer)
unfolding send_response
drain_responses [] s = some ([], s)
drain_responses (r ∷ rs) s = elim (send_response r s) [
  | none ↦ none
  | some (w, s') ↦ elim (drain_responses rs s') [
    | none ↦ none
    | some (ws, s'') ↦ some (w ∷ ws, s'')
  ]
]
