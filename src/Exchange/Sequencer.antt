-- ===== src/Exchange/Sequencer.antt =====
-- exchange/order_server/fifo_sequencer.h: the requests of one round of receives, put in the order
-- of their receive times. `none` is the end of the process by `FATAL`.
pub mod Order
use low_latency_electronic_t.Prelude.{
  ℕ, ◌+◌, ◌≤◌, Option, none, some, List, [], ◌∷◌, ◌++◌, ltb, if◌then◌else◌, length,
}
use low_latency_electronic_t.Common.LfQueue.{LfQueue}
use low_latency_electronic_t.Common.LfQueue
use low_latency_electronic_t.Exchange.Messages.{MeClientRequest}

abbrev pub me_max_pending_requests : ℕ
me_max_pending_requests = 1024

pub record RecvTimeClientRequest : Type 0 where
  pub recv_time : ℕ
  pub request : MeClientRequest

-- The used part of the array `pending_client_requests_`, and the queue to the matching engine.
pub record FifoSequencer : Type 0 where
  pub pending : List RecvTimeClientRequest
  pub incoming_requests : LfQueue MeClientRequest

unfoldable pub add_client_request : ℕ → MeClientRequest → FifoSequencer → Option FifoSequencer
add_client_request rx_time request f =
    if ltb (length f.pending) me_max_pending_requests
    then some
        (record f { pending = f.pending ++ record { recv_time = rx_time; request = request } ∷ [] })
    else none

-- The loop that forwards the sorted requests.
unfoldable pub forward_all :
    List RecvTimeClientRequest → LfQueue MeClientRequest → LfQueue MeClientRequest
unfolding LfQueue.push
forward_all [] q = q
forward_all (r ∷ rs) q = forward_all rs (LfQueue.push q r.request)

-- `std::sort` with `operator<` on the receive times: it says nothing of the order of requests
-- with one receive time, so that the function is an argument.
abbrev pub Sort : Type 0
Sort = List RecvTimeClientRequest → List RecvTimeClientRequest

unfoldable pub sequence_and_publish : Sort → FifoSequencer → FifoSequencer
unfolding forward_all
sequence_and_publish sort f = elim f.pending [
  | [] ↦ f
  | r ∷ rs ↦ record {
    pending = [];
    incoming_requests = forward_all (sort (r ∷ rs)) f.incoming_requests;
  }
]
