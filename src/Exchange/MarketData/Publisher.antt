-- ===== src/Exchange/MarketData/Publisher.antt =====
-- exchange/market_data/market_data_publisher.cpp, `run`: every update of the engine goes out on
-- the incremental stream and to the snapshot synthesizer, under one sequence number.
use low_latency_electronic_t.Prelude.{
  ℕ, ◌+◌, ◌≡◌, ◌∙◌, sym, List, [], ◌∷◌, ◌++◌, append_assoc, append-nil, length, arith,
}
use low_latency_electronic_t.Exchange.Messages.{MeMarketUpdate, MdpMarketUpdate}

-- `incremental` is what was sent to the socket, `to_snapshot` what was written to the queue of the
-- synthesizer, both oldest first.
pub record Publisher : Type 0 where
  pub next_inc_seq_num : ℕ
  pub incremental : List MdpMarketUpdate
  pub to_snapshot : List MdpMarketUpdate

unfoldable pub init : Publisher
init = record { next_inc_seq_num = 1; incremental = []; to_snapshot = [] }

unfoldable pub publish : MeMarketUpdate → Publisher → Publisher
publish u p =
    let packet : MdpMarketUpdate = record { seq_num = p.next_inc_seq_num; me_market_update = u } in
    record {
      next_inc_seq_num = p.next_inc_seq_num + 1;
      incremental = p.incremental ++ packet ∷ [];
      to_snapshot = p.to_snapshot ++ packet ∷ [];
    }

-- The loop over the updates that wait in the queue.
unfoldable pub publish_all : List MeMarketUpdate → Publisher → Publisher
unfolding publish
publish_all [] p = p
publish_all (u ∷ us) p = publish_all us (publish u p)

-- Updates numbered from `n` on.
abbrev pub number_from : ℕ → List MeMarketUpdate → List MdpMarketUpdate
number_from n [] = []
number_from n (u ∷ us) = record { seq_num = n; me_market_update = u } ∷ number_from (n + 1) us

publish_all-from :
    (us : List MeMarketUpdate) (p : Publisher)
    → ((publish_all us p).incremental ≡ p.incremental ++ number_from p.next_inc_seq_num us)
      × ((publish_all us p).to_snapshot ≡ p.to_snapshot ++ number_from p.next_inc_seq_num us)
      × ((publish_all us p).next_inc_seq_num ≡ p.next_inc_seq_num + length us)
unfolding publish_all
publish_all-from [] p =
    (sym (append-nil p.incremental), sym (append-nil p.to_snapshot), omega arith)
publish_all-from (u ∷ us) p =
    let ih = publish_all-from us (publish u p) in
    (
      ih.0 ∙ append_assoc p.incremental _ _,
      ih.1 ∙ append_assoc p.to_snapshot _ _,
      ih.2 ∙ omega arith,
    )

-- From the start, the incremental stream and the stream to the synthesizer are one list: every
-- update of the engine, in order, numbered 1, 2, 3 and so on.
pub publish_all-init :
    (us : List MeMarketUpdate)
    → ((publish_all us init).incremental ≡ number_from 1 us)
      × ((publish_all us init).to_snapshot ≡ number_from 1 us)
unfolding init
publish_all-init us = let r = publish_all-from us init in (r.0, r.1)
