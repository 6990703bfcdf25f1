-- ===== src/Trading/Consumer/Recovery.antt =====
-- Recovery from a snapshot (trading/market_data/market_data_consumer.cpp), and what the synthesizer
-- sends for it (exchange/market_data/snapshot_synthesizer.cpp).
use low_latency_electronic_t.Prelude.{
  ℕ, suc, ap, ◌<◌, ◌+◌, ◌≤◌, ◌≡◌, refl, true, false, some, List, [], ◌∷◌, ◌++◌, length,
  length-append, append_assoc, append-nil, arith,
}
use low_latency_electronic_t.Exchange.Messages.{MarketUpdateType, MeMarketUpdate}
use low_latency_electronic_t.Exchange.MarketData.Snapshot.{number_frames, marker}
use low_latency_electronic_t.Trading.Consumer.{
  Consumer, QueuedMarketUpdates, put, contains, is_start, is_end, event_of, snapshot_events,
  last_message, incremental_events, check_snapshot_sync, receive_one, receive_all, leave,
}

-- Messages under the keys `n`, `n + 1` and so on.
abbrev pairs : ℕ → List MeMarketUpdate → QueuedMarketUpdates
pairs n [] = []
pairs n (u ∷ us) = (n, u) ∷ pairs (n + 1) us

-- No message is a marker of a snapshot.
abbrev pub Body : List MeMarketUpdate → Type 0
Body [] = Unit {0}
Body (u ∷ us) = (is_start u.type ≡ false) × (is_end u.type ≡ false) × Body us

put-pairs :
    (n k : ℕ) (us : List MeMarketUpdate) (u : MeMarketUpdate)
    → k ≡ n + length us
    → put k u (pairs n us) ≡ pairs n (us ++ u ∷ [])
unfolding put
put-pairs n k [] u e = ground arith
put-pairs n k (w ∷ us) u e = ground (arith, put-pairs (n + 1) k us u)

contains-pairs :
    (n k : ℕ) (us : List MeMarketUpdate) → n + length us ≤ k → contains k (pairs n us) ≡ false
unfolding contains
contains-pairs n k [] e = refl
contains-pairs n k (w ∷ us) e = ground (arith, contains-pairs (n + 1) k us)

-- The messages that are no markers.
abbrev events : List MeMarketUpdate → List MeMarketUpdate
events [] = []
events (u ∷ us) = event_of u (events us)

snapshot_events-pairs :
    (n : ℕ) (us : List MeMarketUpdate) → snapshot_events n (pairs n us) ≡ some (events us)
unfolding snapshot_events
snapshot_events-pairs n [] = refl
snapshot_events-pairs n (u ∷ us) = ground (arith, snapshot_events-pairs (n + 1) us)

last_message-pairs :
    (n : ℕ) (u w : MeMarketUpdate) (us : List MeMarketUpdate)
    → last_message u (pairs n (us ++ w ∷ [])) ≡ w
unfolding last_message
last_message-pairs n u w [] = refl
last_message-pairs n u w (v ∷ us) = last_message-pairs (n + 1) v w us

events-Body :
    (us : List MeMarketUpdate) (rest : List MeMarketUpdate)
    → Body us
    → events (us ++ rest) ≡ us ++ events rest
events-Body [] rest b = refl
events-Body (u ∷ us) rest b = ground (arith, events-Body us rest b.2)

last_message-Body :
    (n : ℕ) (u : MeMarketUpdate) (us : List MeMarketUpdate)
    → is_end u.type ≡ false
    → Body us
    → is_end (last_message u (pairs n us)).type ≡ false
unfolding last_message
last_message-Body n u [] e b = e
last_message-Body n u (w ∷ us) e b = last_message-Body (n + 1) w us b.1 b.2

-- The markers that open and close a snapshot taken at the sequence number `seq`.
abbrev pub opening : ℕ → MeMarketUpdate
opening seq = marker MarketUpdateType.snapshot_start seq

abbrev pub closing : ℕ → MeMarketUpdate
closing seq = marker MarketUpdateType.snapshot_end seq

-- A consumer whose snapshot queue holds these messages, numbered from 0.
abbrev holding : Consumer → List MeMarketUpdate → Consumer
holding c us = record c { snapshot_queued_msgs = pairs 0 us }

-- An unfinished snapshot is kept, and nothing else changes.
check-unfinished :
    (c : Consumer) (seq : ℕ) (us : List MeMarketUpdate)
    → Body us
    → check_snapshot_sync (holding c (opening seq ∷ us)) ≡ holding c (opening seq ∷ us)
unfolding check_snapshot_sync
check-unfinished c seq us b =
    ground (arith, snapshot_events-pairs 1 us, last_message-Body 1 (opening seq) us)

-- The state after a recovery: the snapshot socket is closed, its buffer given up.
abbrev pub recovered : Consumer → ℕ → List MeMarketUpdate → Consumer
recovered c next us = record c {
  next_exp_inc_seq_num = next;
  in_recovery = false;
  snapshot_queued_msgs = [];
  incremental_queued_msgs = [];
  forwarded = c.forwarded ++ us;
  joined = false;
  snapshot_valid = 0;
}

-- A finished snapshot is committed, with the incrementals that follow it.
check-finished :
    (c : Consumer) (seq : ℕ) (us : List MeMarketUpdate) {next : ℕ} {vs : List MeMarketUpdate}
    → c.joined ≡ true
    → Body us
    → incremental_events (seq + 1) c.incremental_queued_msgs ≡ (next, some vs)
    → check_snapshot_sync (holding c (opening seq ∷ (us ++ closing seq ∷ [])))
      ≡ recovered c next (us ++ vs)
unfolding check_snapshot_sync leave
check-finished c seq us {next} {vs} wired b e = ground (
  arith,
  snapshot_events-pairs 1 (us ++ closing seq ∷ []),
  events-Body us (closing seq ∷ []) b,
  append-nil us,
  last_message-pairs 1 (opening seq) (closing seq) us,
)

-- One more frame of the snapshot joins those in the queue.
receive_one-frame :
    (c : Consumer) (us : List MeMarketUpdate) (k : ℕ) (u : MeMarketUpdate)
    → c.in_recovery ≡ true
    → k ≡ length us
    → receive_one true (record { seq_num = k; me_market_update = u }) (holding c us)
      ≡ some (check_snapshot_sync (holding c (us ++ u ∷ [])))
unfolding receive_one
receive_one-frame c us k u r e = ground (arith, contains-pairs 0 k us, put-pairs 0 k us u)

pub length-number_frames :
    (n : ℕ) (us : List MeMarketUpdate) → length (number_frames n us) ≡ length us
unfolding number_frames
length-number_frames n [] = refl
length-number_frames n (u ∷ us) = ap suc (length-number_frames (n + 1) us)

pub Body-append : (us vs : List MeMarketUpdate) → Body us → Body vs → Body (us ++ vs)
Body-append [] vs b d = d
Body-append (u ∷ us) vs b d = (b.0, b.1, Body-append us vs b.2 d)

module _ (c : Consumer) (seq : ℕ) (next : ℕ) (vs : List MeMarketUpdate) (r : c.in_recovery ≡ true)
    (wired : c.joined ≡ true)
    (e : incremental_events (seq + 1) c.incremental_queued_msgs ≡ (next, some vs)) where
  deliver :
      (us done : List MeMarketUpdate) (n : ℕ)
      → Body us
      → Body done
      → n ≡ 1 + length done
      → n + length us < c.snapshot_valid
      → receive_all true n
          (number_frames n (us ++ closing seq ∷ []))
          (holding c (opening seq ∷ done))
        ≡ some (n + length us + 1, recovered c next ((done ++ us) ++ vs))
  unfolding receive_all number_frames
  deliver [] done n b d l v = ground (
    arith,
    receive_one-frame c (opening seq ∷ done) n (closing seq),
    check-finished c seq done wired d e,
    append-nil done,
  )
  deliver (u ∷ us) done n b d l v = ground (
    arith,
    receive_one-frame c (opening seq ∷ done) n u,
    check-unfinished c seq (done ++ u ∷ []) (Body-append done (u ∷ []) d (b.0, b.1, tt)),
    deliver us (done ++ u ∷ []) (n + 1) b.2 (Body-append done (u ∷ []) d (b.0, b.1, tt)),
    length-append done (u ∷ []),
    append_assoc done (u ∷ []) us,
  )

  -- The loop of `recvCallback` over a whole snapshot, all of it in the buffer.
  pub loop_lem :
      (us : List MeMarketUpdate)
      → c.snapshot_queued_msgs ≡ []
      → Body us
      → length us + 2 ≤ c.snapshot_valid
      → receive_all true 0 (number_frames 0 (opening seq ∷ (us ++ closing seq ∷ []))) c
        ≡ some (length us + 2, recovered c next (us ++ vs))
  unfolding number_frames receive_all
  loop_lem us q b v = ground (
    arith,
    receive_one-frame c [] 0 (opening seq),
    check-unfinished c seq [] tt,
    deliver us [] 1 b tt,
  )
