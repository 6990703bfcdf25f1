-- ===== src/Exchange/Matcher/Routing.antt =====
-- Which book a request reaches, and where its messages go (exchange/matcher/matching_engine.h).
use low_latency_electronic_t.Prelude.{
  ℕ, suc, ◌+◌, ◌<◌, ◌≤◌, ◌≡◌, ◌≢◌, refl, sym, ◌∙◌, some, List, [], ◌∷◌, ◌++◌, append_assoc,
  append-nil, arith, length, update,
}
use low_latency_electronic_t.Common.Types.{me_max_tickers}
use low_latency_electronic_t.Common.LfQueue.{LfQueue}
use low_latency_electronic_t.Common.LfQueue
use low_latency_electronic_t.Common.LfQueue.Refine.{IsValid, contents, push_refines, push-size}
use low_latency_electronic_t.Exchange.Messages.{MeClientRequest, MeClientResponse, MeMarketUpdate}
use low_latency_electronic_t.Exchange.Matcher.Book.{MeOrderBook, Sent, response, market}
use low_latency_electronic_t.Exchange.Matcher.Engine.{
  MatchingEngine, send_all, dispatch, process_client_request,
}

-- The messages of a book to the order server, and those to the publisher.
abbrev pub responses_of : List Sent → List MeClientResponse
responses_of [] = []
responses_of (response r ∷ l) = r ∷ responses_of l
responses_of (market u ∷ l) = responses_of l

abbrev pub updates_of : List Sent → List MeMarketUpdate
updates_of [] = []
updates_of (response r ∷ l) = updates_of l
updates_of (market u ∷ l) = u ∷ updates_of l

-- A valid queue with room for so many elements.
pub record HasRoom {T : Type 0} (q : LfQueue T) (n : ℕ) : Type 0 where
  pub valid : IsValid q
  pub room : q.num_elements + n ≤ q.capacity

-- The queue after it got a list of elements.
pub record Got {T : Type 0} (q q' : LfQueue T) (l : List T) : Type 0 where
  pub valid : IsValid q'
  pub now : contents q' ≡ contents q ++ l

push-HasRoom :
    {T : Type 0} (q : LfQueue T) (v : T) {n : ℕ} → HasRoom q (suc n) → HasRoom (LfQueue.push q v) n
push-HasRoom q v h = record {
  valid = (push_refines q v h.valid (omega (arith, h.room))).1;
  room = omega (arith, h.room, push-size q v);
}

push-Got :
    {T : Type 0} (q : LfQueue T) (v : T) {q' : LfQueue T} {l : List T}
    → HasRoom q (length (v ∷ l))
    → Got (LfQueue.push q v) q' l
    → Got q q' (v ∷ l)
push-Got q v h g = record {
  valid = g.valid;
  now = g.now ∙ rw ((push_refines q v h.valid (omega (arith, h.room))).0, append_assoc) refl;
}

send_all-Got :
    (l : List Sent) (e : MatchingEngine)
    → HasRoom e.outgoing_ogw_responses (length (responses_of l))
    → HasRoom e.outgoing_md_updates (length (updates_of l))
    → Got e.outgoing_ogw_responses (send_all l e).outgoing_ogw_responses (responses_of l)
      × Got e.outgoing_md_updates (send_all l e).outgoing_md_updates (updates_of l)
      × ((send_all l e).ticker_order_book ≡ e.ticker_order_book)
unfolding send_all
send_all-Got [] e h k = (
  record { valid = h.valid; now = sym (append-nil (contents e.outgoing_ogw_responses)) },
  record { valid = k.valid; now = sym (append-nil (contents e.outgoing_md_updates)) },
  refl,
)
send_all-Got (response r ∷ l) e h k =
    let q = e.outgoing_ogw_responses in
    let (a, b, c) =
      send_all-Got l (record e { outgoing_ogw_responses = LfQueue.push q r }) (push-HasRoom q r h)
        k in
    (push-Got q r h a, b, c)
send_all-Got (market u ∷ l) e h k =
    let q = e.outgoing_md_updates in
    let (a, b, c) =
      send_all-Got l (record e { outgoing_md_updates = LfQueue.push q u }) h (push-HasRoom q u k) in
    (a, push-Got q u k b, c)

-- A request for a ticker in range that its book processes without the end of the process changes
-- the book of its ticker as the book says and no other. Where both queues are valid and have room,
-- they get the messages of that book, each kind in order: the order server the responses, the
-- publisher the market updates.
pub process_client_request_lem :
    (r : MeClientRequest) (e : MatchingEngine) {b : MeOrderBook}
    → r.ticker_id < me_max_tickers
    → dispatch r (record (e.ticker_order_book r.ticker_id) { sent = [] }) ≡ some (tt, b)
    → HasRoom e.outgoing_ogw_responses (length (responses_of b.sent))
    → HasRoom e.outgoing_md_updates (length (updates_of b.sent))
    → (e' : MatchingEngine) × (process_client_request r e ≡ some e')
      × (e'.ticker_order_book r.ticker_id ≡ b)
      × ((t : ℕ) → t ≢ r.ticker_id → e'.ticker_order_book t ≡ e.ticker_order_book t)
      × Got e.outgoing_ogw_responses e'.outgoing_ogw_responses (responses_of b.sent)
      × Got e.outgoing_md_updates e'.outgoing_md_updates (updates_of b.sent)
unfolding process_client_request
process_client_request_lem r e {b} t d h k =
    let booked = record e { ticker_order_book = update e.ticker_order_book r.ticker_id b } in
    let (a, m, same) = send_all-Got b.sent booked h k in
    (
      send_all b.sent booked,
      ground arith,
      rw same (ground arith),
      λ u ne. rw same (ground arith),
      a,
      m,
    )
