-- ===== src/Tests/Server.antt =====
-- The order server, the sequencer (exchange/order_server/) and the client's gateway
-- (trading/order_gw/) at concrete inputs.
use mathlib.Core.List.{Perm}
use mathlib.Core.List.Perm
use low_latency_electronic_t.Prelude.{
  ℕ, suc, ◌+◌, ◌≡◌, inl, inr, refl, pos, Option, none, some, List, [], ◌∷◌, ◌++◌, map, leb,
  Bool-cases, if◌then◌else◌, length, arith,
}
use low_latency_electronic_t.Common.Types.{Side}
use low_latency_electronic_t.Common.LfQueue
use low_latency_electronic_t.Common.LfQueue.{LfQueue}
use low_latency_electronic_t.Common.LfQueue.Refine.{contents, IsValid, init-IsValid}
use low_latency_electronic_t.Exchange.Messages.{
  ClientRequestType, MeClientRequest, OmClientRequest, ClientResponseType, MeClientResponse,
}
use low_latency_electronic_t.Exchange.Sequencer.{
  RecvTimeClientRequest, FifoSequencer, Sort, sequence_and_publish,
}
use low_latency_electronic_t.Exchange.Sequencer.Order.{
  InTimeOrder, Sorts, requests_of, sequence_and_publish_lem,
}
use low_latency_electronic_t.Exchange.OrderServer.{
  OrderServer, OmClientResponse, init, receive_one, recv_callback, drain_responses,
}
use low_latency_electronic_t.Exchange.OrderServer.Receive.{
  pending, count_of, Answered, receive_one-Answered, recv_callback-count,
}
use low_latency_electronic_t.Exchange.OrderServer.Responses
use low_latency_electronic_t.Exchange.OrderServer.Responses.{
  seqs_of, numbers_from, ToOwnSocket, drain_responses_lem,
}
use low_latency_electronic_t.Trading.Gateway
use low_latency_electronic_t.Trading.Gateway.{
  OrderGateway, SequencedResponse, in_sequence, recv_callback_lem, number_requests,
  send_requests_lem,
}

-- A sort by insertion, as an instance of what `std::sort` promises.
insert : RecvTimeClientRequest → List RecvTimeClientRequest → List RecvTimeClientRequest
insert a [] = a ∷ []
insert a (b ∷ l) = if leb a.recv_time b.recv_time then a ∷ b ∷ l else b ∷ insert a l

by_insertion : Sort
by_insertion [] = []
by_insertion (a ∷ l) = insert a (by_insertion l)

insert-perm :
    (a : RecvTimeClientRequest) (l : List RecvTimeClientRequest) → Perm (insert a l) (a ∷ l)
unfolding insert
insert-perm a [] = Perm.refl (a ∷ [])
insert-perm a (b ∷ l) = elim (Bool-cases (leb a.recv_time b.recv_time)) [
  | inl e ↦ rw e (Perm.refl (a ∷ b ∷ l))
  | inr e ↦ rw e (Perm.trans (Perm.cons b (insert-perm a l)) (Perm.swap a b l))
]

insert-InTimeOrder :
    (a : RecvTimeClientRequest) (l : List RecvTimeClientRequest)
    → InTimeOrder l
    → InTimeOrder (insert a l)
unfolding insert
insert-InTimeOrder a [] h = tt
insert-InTimeOrder a (b ∷ []) h = ground arith
insert-InTimeOrder a (b ∷ c ∷ l) h = ground (arith, insert-InTimeOrder a (c ∷ l) h.1)

length-insert :
    (a : RecvTimeClientRequest) (l : List RecvTimeClientRequest)
    → length (insert a l) ≡ suc (length l)
unfolding insert
length-insert a [] = refl
length-insert a (b ∷ l) = ground (arith, length-insert a l)

by_insertion-perm : (l : List RecvTimeClientRequest) → Perm (by_insertion l) l
unfolding by_insertion
by_insertion-perm [] = Perm.refl []
by_insertion-perm (a ∷ l) =
    Perm.trans (insert-perm a (by_insertion l)) (Perm.cons a (by_insertion-perm l))

by_insertion-InTimeOrder : (l : List RecvTimeClientRequest) → InTimeOrder (by_insertion l)
unfolding by_insertion
by_insertion-InTimeOrder [] = tt
by_insertion-InTimeOrder (a ∷ l) =
    insert-InTimeOrder a (by_insertion l) (by_insertion-InTimeOrder l)

length-by_insertion : (l : List RecvTimeClientRequest) → length (by_insertion l) ≡ length l
unfolding by_insertion
length-by_insertion [] = refl
length-by_insertion (a ∷ l) = omega (arith, length-insert a (by_insertion l), length-by_insertion l)

by_insertion-Sorts : Sorts by_insertion
by_insertion-Sorts = record {
  permutes = by_insertion-perm;
  orders = by_insertion-InTimeOrder;
  same_length = length-by_insertion;
}

abbrev buy_for : ℕ → MeClientRequest
buy_for c = record {
  type = ClientRequestType.new;
  client_id = c;
  ticker_id = 0;
  order_id = 1;
  side = Side.buy;
  price = pos 100;
  qty = 5;
}

abbrev empty_queue : LfQueue MeClientRequest
empty_queue = LfQueue.init 8 (buy_for 0)

abbrev two_pending : FifoSequencer
two_pending = record {
  pending =
      record { recv_time = 9; request = buy_for 1 }
      ∷ record { recv_time = 4; request = buy_for 2 }
      ∷ [];
  incoming_requests = empty_queue;
}

sequence_and_publish_lem_example :
    (sorted : List RecvTimeClientRequest) × Perm sorted two_pending.pending
    × InTimeOrder sorted
    × (contents (sequence_and_publish by_insertion two_pending).incoming_requests
        ≡ contents empty_queue ++ requests_of sorted)
    × ((sequence_and_publish by_insertion two_pending).pending ≡ [])
    × IsValid (sequence_and_publish by_insertion two_pending).incoming_requests
unfolding LfQueue.init
sequence_and_publish_lem_example =
    sequence_and_publish_lem by_insertion two_pending by_insertion-Sorts
      ((init-IsValid 8 (buy_for 0) (omega arith)).0) (omega arith)

abbrev new_server : OrderServer
new_server = init (record { pending = []; incoming_requests = empty_queue })

abbrev message : ℕ → ℕ → OmClientRequest
message c n = record { seq_num = n; me_client_request = buy_for c }

receive_one-Answered_example :
    (s' : OrderServer) × (receive_one 6 50 (message 3 1) new_server ≡ some s')
    × Answered 6 50 (message 3 1) new_server s'
unfolding init
receive_one-Answered_example =
    receive_one-Answered 6 50 (message 3 1) new_server (omega arith) (omega arith)

-- The second message repeats a number, and the server ignores it.
abbrev batch : List OmClientRequest
batch = message 3 1 ∷ message 3 1 ∷ message 3 2 ∷ []

abbrev or_new : Option OrderServer → OrderServer
or_new none = new_server
or_new (some s) = s

recv_callback-count_example :
    count_of 3 (pending (or_new (recv_callback 6 50 batch new_server))) + 1 ≡ 3
unfolding init recv_callback
recv_callback-count_example =
    recv_callback-count 6 50 batch new_server {s' = or_new (recv_callback 6 50 batch new_server)} 3
      refl

abbrev answer_to : ℕ → MeClientResponse
answer_to c = record {
  type = ClientResponseType.accepted;
  client_id = c;
  ticker_id = 0;
  client_order_id = 1;
  market_order_id = 1;
  side = Side.buy;
  price = pos 100;
  exec_qty = 0;
  leaves_qty = 5;
}

abbrev connected : OrderServer
connected = record new_server { cid_tcp_socket = λ c. some (c + 10) }

abbrev answers : List MeClientResponse
answers = answer_to 3 ∷ answer_to 4 ∷ answer_to 3 ∷ []

drain_responses_lem_example :
    (ws : List OmClientResponse) × (s' : OrderServer) × (drain_responses answers connected
      ≡ some (ws, s'))
    × (map (λ w. w.me_client_response) ws ≡ answers)
    × ToOwnSocket connected ws
    × ((c : ℕ)
        → seqs_of c ws
          ≡ numbers_from (connected.cid_next_outgoing_seq_num c) (Responses.count_of c answers))
    × ((c : ℕ)
        → s'.cid_next_outgoing_seq_num c
          ≡ connected.cid_next_outgoing_seq_num c + Responses.count_of c answers)
drain_responses_lem_example =
    drain_responses_lem answers connected
      (omega arith, (13, refl), (omega arith, (14, refl), (omega arith, (13, refl), tt)))

abbrev gateway : OrderGateway
gateway = record {
  client_id = 3;
  next_outgoing_seq_num = 1;
  next_exp_seq_num = 1;
  written = [];
  incoming_responses = [];
}

abbrev stream : List SequencedResponse
stream =
    record { seq_num = 1; me_client_response = answer_to 3 }
    ∷ record { seq_num = 1; me_client_response = answer_to 3 }
    ∷ record { seq_num = 2; me_client_response = answer_to 4 }
    ∷ []

recv_callback_lem_example : Gateway.recv_callback stream gateway ≡ record gateway {
  next_exp_seq_num = 1 + length (in_sequence 3 1 stream);
  incoming_responses = in_sequence 3 1 stream;
}
recv_callback_lem_example = recv_callback_lem stream gateway

abbrev requests : List MeClientRequest
requests = (message 3 1).me_client_request ∷ (message 3 2).me_client_request ∷ []

send_requests_lem_example :
    ((Gateway.send_requests requests gateway).written
      ≡ gateway.written ++ number_requests gateway.next_outgoing_seq_num requests)
    × ((Gateway.send_requests requests gateway).next_outgoing_seq_num
        ≡ gateway.next_outgoing_seq_num + length requests)
send_requests_lem_example = send_requests_lem requests gateway
