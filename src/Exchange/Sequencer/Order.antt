-- ===== src/Exchange/Sequencer/Order.antt =====
-- What the matching engine receives of one round (exchange/order_server/fifo_sequencer.h).
use mathlib.Core.List.{Perm}
use mathlib.Core.List.Perm
use low_latency_electronic_t.Prelude.{
  ◌+◌, ◌≤◌, ◌<◌, ◌≡◌, refl, ap, ◌∙◌, sym, List, [], ◌∷◌, ◌++◌, map, append_assoc, append-nil,
  length, arith,
}
use low_latency_electronic_t.Common.LfQueue.{LfQueue}
use low_latency_electronic_t.Common.LfQueue
use low_latency_electronic_t.Common.LfQueue.Refine.{contents, IsValid, push_refines, push-size}
use low_latency_electronic_t.Exchange.Messages.{MeClientRequest}
use low_latency_electronic_t.Exchange.Sequencer.{
  RecvTimeClientRequest, FifoSequencer, Sort, forward_all, sequence_and_publish,
}

-- Receive times do not fall along the list.
abbrev pub InTimeOrder : List RecvTimeClientRequest → Type 0
InTimeOrder [] = Unit {0}
InTimeOrder (a ∷ []) = Unit {0}
InTimeOrder (a ∷ b ∷ rs) = (a.recv_time ≤ b.recv_time) × InTimeOrder (b ∷ rs)

-- What `std::sort` promises.
pub record Sorts (sort : Sort) : Type 0 where
  pub permutes : (l : List RecvTimeClientRequest) → Perm (sort l) l
  pub orders : (l : List RecvTimeClientRequest) → InTimeOrder (sort l)
  pub same_length : (l : List RecvTimeClientRequest) → length (sort l) ≡ length l

abbrev pub requests_of : List RecvTimeClientRequest → List MeClientRequest
requests_of l = map (λ r. r.request) l

forward_all_refines :
    (rs : List RecvTimeClientRequest) (q : LfQueue MeClientRequest)
    → IsValid q
    → q.num_elements + length rs ≤ q.capacity
    → (contents (forward_all rs q) ≡ contents q ++ requests_of rs) × IsValid (forward_all rs q)
unfolding forward_all
forward_all_refines [] q v h = (sym (append-nil (contents q)), v)
forward_all_refines (r ∷ rs) q v h =
    let room : q.num_elements < q.capacity = omega arith in
    let pushed = push_refines q r.request v room in
    let rest =
      forward_all_refines rs (LfQueue.push q r.request) pushed.1
        (omega (arith, push-size q r.request)) in
    (rest.0 ∙ rw (pushed.0, append_assoc) refl, rest.1)

-- At the end of a round, if the queue has room for the requests of the round, they follow in it
-- what it held before, all of them and no other, in the order of their receive times; none stays
-- pending, and the queue stays valid.
pub sequence_and_publish_lem :
    (sort : Sort) (f : FifoSequencer)
    → Sorts sort
    → IsValid f.incoming_requests
    → f.incoming_requests.num_elements + length f.pending ≤ f.incoming_requests.capacity
    → (sorted : List RecvTimeClientRequest) × Perm sorted f.pending
      × InTimeOrder sorted
      × (contents (sequence_and_publish sort f).incoming_requests
          ≡ contents f.incoming_requests ++ requests_of sorted)
      × ((sequence_and_publish sort f).pending ≡ [])
      × IsValid (sequence_and_publish sort f).incoming_requests
unfolding sequence_and_publish
sequence_and_publish_lem sort f laws v h = go f.pending refl
  where
    go :
        (l : List RecvTimeClientRequest)
        → f.pending ≡ l
        → (sorted : List RecvTimeClientRequest) × Perm sorted f.pending
          × InTimeOrder sorted
          × (contents (sequence_and_publish sort f).incoming_requests
              ≡ contents f.incoming_requests ++ requests_of sorted)
          × ((sequence_and_publish sort f).pending ≡ [])
          × IsValid (sequence_and_publish sort f).incoming_requests
    go [] e =
        rw (e, sequence_and_publish)
          ([], Perm.refl [], tt, sym (append-nil (contents f.incoming_requests)), e, v)
    go (r ∷ rs) e =
        let published =
          forward_all_refines (sort (r ∷ rs)) f.incoming_requests v
            (omega (arith, ap (length {A = RecvTimeClientRequest}) e, laws.same_length (r ∷ rs))) in
        rw (e, sequence_and_publish)
          (
            sort (r ∷ rs),
            laws.permutes (r ∷ rs),
            laws.orders (r ∷ rs),
            published.0,
            refl,
            published.1,
          )
