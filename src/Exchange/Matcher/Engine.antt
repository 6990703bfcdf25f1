-- ===== src/Exchange/Matcher/Engine.antt =====
-- exchange/matcher/matching_engine.h: a book for each ticker, and the queues to the order server
-- and to the publisher. `none` is the end of the process, or an index past the end of the array of
-- books, which the code does not check.
use low_latency_electronic_t.Prelude.{
  ℕ, Option, none, some, List, [], ◌∷◌, ltb, if◌then◌else◌, update,
}
use low_latency_electronic_t.Common.Types.{me_max_tickers}
use low_latency_electronic_t.Common.LfQueue.{LfQueue}
use low_latency_electronic_t.Common.LfQueue
use low_latency_electronic_t.Exchange.Messages.{
  ClientRequestType, MeClientRequest, MeClientResponse, MeMarketUpdate,
}
use low_latency_electronic_t.Exchange.Matcher.Book.{MeOrderBook, M, Sent, response, market}
use low_latency_electronic_t.Exchange.Matcher.Match.{add, cancel}

pub record MatchingEngine : Type 0 where
  pub ticker_order_book : ℕ → MeOrderBook
  pub incoming_requests : LfQueue MeClientRequest
  pub outgoing_ogw_responses : LfQueue MeClientResponse
  pub outgoing_md_updates : LfQueue MeMarketUpdate

-- `sendClientResponse` and `sendMarketUpdate`: what a book sent goes to the two queues, in order.
unfoldable pub send_all : List Sent → MatchingEngine → MatchingEngine
send_all [] e = e
send_all (response r ∷ l) e =
    send_all l (record e { outgoing_ogw_responses = LfQueue.push e.outgoing_ogw_responses r })
send_all (market u ∷ l) e =
    send_all l (record e { outgoing_md_updates = LfQueue.push e.outgoing_md_updates u })

-- The call on the book; a request of another type ends the process.
unfoldable pub dispatch : MeClientRequest → M (Unit {0})
dispatch r b = elim r.type [
  | ClientRequestType.new ↦ add r.client_id r.order_id r.ticker_id r.side r.price r.qty b
  | ClientRequestType.cancel ↦ cancel r.client_id r.order_id r.ticker_id b
  | ClientRequestType.invalid ↦ none
]

unfoldable pub process_client_request : MeClientRequest → MatchingEngine → Option MatchingEngine
process_client_request r e =
    if ltb r.ticker_id me_max_tickers
    then elim (dispatch r (record (e.ticker_order_book r.ticker_id) { sent = [] })) [
      | none ↦ none
      | some (_, b) ↦ some (
          send_all b.sent
            (record e { ticker_order_book = update e.ticker_order_book r.ticker_id b }))
    ]
    else none

-- One pass of the loop in `run`: the request is taken off the queue once it is processed.
unfoldable pub run_once : MatchingEngine → Option MatchingEngine
run_once e = elim (LfQueue.get_next_to_read e.incoming_requests) [
  | none ↦ some e
  | some r ↦ elim (process_client_request r e) [
    | none ↦ none
    | some e' ↦ elim (LfQueue.update_read_index e'.incoming_requests) [
      | none ↦ none
      | some q ↦ some (record e' { incoming_requests = q })
    ]
  ]
]
