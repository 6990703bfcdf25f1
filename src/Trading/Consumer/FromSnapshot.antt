-- ===== src/Trading/Consumer/FromSnapshot.antt =====
-- A snapshot of the synthesizer (exchange/market_data/snapshot_synthesizer.cpp) at the consumer
-- (trading/market_data/market_data_consumer.cpp).
use low_latency_electronic_t.Prelude.{
  ℕ, zero, suc, ◌+◌, ◌≡◌, refl, true, some, List, [], ◌++◌, ◌∷◌, length, length-append, subst, none,
  ◌<◌, arith, Option-cases, inl, inr,
}
use low_latency_electronic_t.Exchange.Messages.{MeMarketUpdate, MdpMarketUpdate}
use low_latency_electronic_t.Exchange.MarketData.Snapshot.{
  Synthesizer, orders_from, tickers_from, snapshot_frames,
}
use low_latency_electronic_t.Exchange.MarketData.Snapshot.Table.{Inv}
use low_latency_electronic_t.Trading.Consumer.{
  Consumer, recv_callback, receive_all, slide, incremental_events,
}
use low_latency_electronic_t.Trading.Consumer.Recovery.{
  Body, Body-append, recovered, loop_lem, opening, closing, length-number_frames,
}

-- The call of a callback whose loop gave the buffer up.
pub recv_callback-overrun :
    (ms : List MdpMarketUpdate) (n i : ℕ) (c c' : Consumer)
    → c.in_recovery ≡ true
    → n ≡ length ms
    → receive_all true 0 ms (record c { snapshot_valid = n }) ≡ some (i, c')
    → c'.snapshot_valid < i
    → recv_callback true ms c ≡ none
unfolding recv_callback slide
recv_callback-overrun ms n i c c' r l e h =
    let e' : receive_all true 0 ms (record c { snapshot_valid = length ms }) ≡ some (i, c') =
      subst (λ k. receive_all true 0 ms (record c { snapshot_valid = k }) ≡ some (i, c')) l e in
    ground arith

module _ (s : Synthesizer) (inv : Inv s) where
  orders_from-Body : (t rounds o : ℕ) → Body (orders_from s t rounds o)
  unfolding orders_from
  orders_from-Body t zero o = tt
  orders_from-Body t (suc rounds) o = elim (Option-cases (s.ticker_orders t o)) [
    | inl n ↦ ground (arith, orders_from-Body t rounds (o + 1))
    | inr (p, h) ↦ ground (arith, inv.entries t o p h, orders_from-Body t rounds (o + 1))
  ]

  tickers_from-Body : (num_orders rounds t : ℕ) → Body (tickers_from s num_orders rounds t)
  unfolding tickers_from
  tickers_from-Body num_orders zero t = tt
  tickers_from-Body num_orders (suc rounds) t = (
    refl,
    refl,
    Body-append (orders_from s t num_orders 0) (tickers_from s num_orders rounds (t + 1))
        (orders_from-Body t num_orders 0) (tickers_from-Body num_orders rounds (t + 1)),
  )

  -- A snapshot that the synthesizer publishes lies whole and in order in the buffer of a consumer
  -- that is in recovery with its snapshot socket set up and holds no part of a snapshot; and the
  -- queued incrementals that follow the last one which the snapshot includes have no gap. Then the
  -- loop of recvCallback handles every frame, forwards a CLEAR and the live orders for each ticker
  -- and then those incrementals, and ends the recovery. But with the recovery the socket gives up
  -- its buffer, and so the call does not return: the memcpy behind the loop has a size below zero.
  pub snapshot_frames-recovers :
      (num_tickers num_orders : ℕ) (c : Consumer) {next : ℕ} {vs : List MeMarketUpdate}
      → c.in_recovery ≡ true
      → c.joined ≡ true
      → c.snapshot_queued_msgs ≡ []
      → incremental_events (s.last_inc_seq_num + 1) c.incremental_queued_msgs ≡ (next, some vs)
      → (n : ℕ) × (n ≡ length (snapshot_frames num_tickers num_orders s))
        × (receive_all true 0
              (snapshot_frames num_tickers num_orders s)
              (record c { snapshot_valid = n })
            ≡ some (n, recovered c next (tickers_from s num_orders num_tickers 0 ++ vs)))
        × (recv_callback true (snapshot_frames num_tickers num_orders s) c ≡ none)
  unfolding snapshot_frames
  snapshot_frames-recovers num_tickers num_orders c {next} {vs} r j q e =
      let us = tickers_from s num_orders num_tickers 0 in
      let n = length us + 2 in
      let same : n ≡ length (snapshot_frames num_tickers num_orders s) = ground (
        arith,
        length-number_frames 0
            (opening s.last_inc_seq_num ∷ (us ++ closing s.last_inc_seq_num ∷ [])),
        length-append us (closing s.last_inc_seq_num ∷ []),
      ) in
      let loop =
        loop_lem (record c { snapshot_valid = n }) s.last_inc_seq_num next vs r j e us q
          (tickers_from-Body num_orders num_tickers 0) (omega arith) in
      (
        n,
        same,
        loop,
        recv_callback-overrun (snapshot_frames num_tickers num_orders s) n n c
            (recovered c next (us ++ vs)) r same loop (omega arith),
      )
