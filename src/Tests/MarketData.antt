-- ===== src/Tests/MarketData.antt =====
-- The publisher, the synthesizer (exchange/market_data/) and the consumer (trading/market_data/)
-- at concrete inputs.
use low_latency_electronic_t.Prelude.{
  length, Bool, ℕ, ◌≡◌, refl, pos, true, false, Option, none, some, List, [], ◌∷◌, ◌++◌, arith,
  update,
}
use low_latency_electronic_t.Common.Types.{Side}
use low_latency_electronic_t.Common.MemPool
use low_latency_electronic_t.Common.MemPool.{MemPool}
use low_latency_electronic_t.Exchange.Messages.{
  MarketUpdateType, MeMarketUpdate, MdpMarketUpdate, default_market_update,
}
use low_latency_electronic_t.Exchange.MarketData.Publisher
use low_latency_electronic_t.Exchange.MarketData.Publisher.{number_from, publish_all-init}
use low_latency_electronic_t.Exchange.MarketData.Snapshot.{
  Synthesizer, apply_update, tickers_from, snapshot_frames,
}
use low_latency_electronic_t.Exchange.MarketData.Snapshot.Stream.{replay_all, add_all-publish_all}
use low_latency_electronic_t.Exchange.MarketData.Snapshot
use low_latency_electronic_t.Exchange.MarketData.Snapshot.{add_all}
use low_latency_electronic_t.Exchange.MarketData.Snapshot.Table.{
  live, write, Inv, apply_update_refines, replay,
}
use low_latency_electronic_t.Trading.Consumer.{
  Consumer, init, receive_all, recv_callback, incremental_events,
}
use low_latency_electronic_t.Trading.Consumer.Recovery.{recovered}
use low_latency_electronic_t.Trading.Consumer.FromSnapshot.{snapshot_frames-recovers}
use low_latency_electronic_t.Trading.Consumer.Stuck.{StillWaiting, run, run-init-StillWaiting}

abbrev update_of : MarketUpdateType → ℕ → MeMarketUpdate
update_of type oid = record {
  type = type;
  order_id = oid;
  ticker_id = 0;
  side = Side.buy;
  price = pos 100;
  qty = 5;
  priority = 1;
}

abbrev two_updates : List MeMarketUpdate
two_updates = update_of MarketUpdateType.add 1 ∷ update_of MarketUpdateType.cancel 1 ∷ []

publish_all-init_example :
    ((Publisher.publish_all two_updates Publisher.init).incremental ≡ number_from 1 two_updates)
    × ((Publisher.publish_all two_updates Publisher.init).to_snapshot ≡ number_from 1 two_updates)
publish_all-init_example = publish_all-init two_updates

-- A table of four blocks with order 2 of ticker 0 in the first one.
abbrev table : Synthesizer
table = record {
  ticker_orders = update (λ t o. none) 0 (update (λ o. none) 2 (some 0));
  last_inc_seq_num = 7;
  order_pool = record {
    store =
        update (λ i. record { object = default_market_update; is_free = true }) 0
          (record { object = update_of MarketUpdateType.add 2; is_free = false });
    size = 4;
    next_free_index = 1;
  };
}

table-Inv : Inv table
table-Inv = record {
  pool = record { in_range = omega arith; free = refl };
  entries = λ t o p h. ground arith;
}

apply_update_refines_example :
    (s' : Synthesizer) × (apply_update (update_of MarketUpdateType.cancel 2) table ≡ some s')
    × Inv s'
    × ((t o : ℕ) → live s' t o ≡ write (live table) 0 2 none t o)
unfolding replay MemPool.allocate MemPool.scan
apply_update_refines_example =
    apply_update_refines (update_of MarketUpdateType.cancel 2) table (write (live table) 0 2 none)
      table-Inv (omega arith) (λ e. cc) refl

-- A consumer in recovery that holds the incrementals 7 and 8.
abbrev recovering : Consumer
recovering = record {
  next_exp_inc_seq_num = 4;
  in_recovery = true;
  snapshot_queued_msgs = [];
  incremental_queued_msgs =
      (7, update_of MarketUpdateType.modify 2) ∷ (8, update_of MarketUpdateType.cancel 2) ∷ [];
  forwarded = [];
  can_join = true;
  joined = true;
  snapshot_valid = 0;
}

snapshot_frames-recovers_example :
    (n : ℕ) × (n ≡ length (snapshot_frames 2 4 table))
    × (receive_all true 0 (snapshot_frames 2 4 table) (record recovering { snapshot_valid = n })
        ≡ some (
          n,
          recovered recovering 9
              (tickers_from table 4 2 0 ++ update_of MarketUpdateType.cancel 2 ∷ []),
        ))
    × (recv_callback true (snapshot_frames 2 4 table) recovering ≡ none)
unfolding incremental_events
snapshot_frames-recovers_example =
    snapshot_frames-recovers table table-Inv 2 4 recovering {next = 9}
      {vs = update_of MarketUpdateType.cancel 2 ∷ []} refl refl refl refl

-- The update 3 comes first: a gap.
abbrev with_gap : List (Bool × List MdpMarketUpdate)
with_gap =
    (false, record { seq_num = 3; me_market_update = update_of MarketUpdateType.add 1 } ∷ []) ∷ []

abbrev after_gap : Consumer
after_gap = record {
  next_exp_inc_seq_num = 1;
  in_recovery = true;
  snapshot_queued_msgs = [];
  incremental_queued_msgs = (3, update_of MarketUpdateType.add 1) ∷ [];
  forwarded = [];
  can_join = true;
  joined = true;
  snapshot_valid = 0;
}

run-init-StillWaiting_example :
    StillWaiting after_gap (run ((true, snapshot_frames 2 4 table) ∷ []) after_gap)
unfolding init run recv_callback
run-init-StillWaiting_example =
    run-init-StillWaiting with_gap ((true, snapshot_frames 2 4 table) ∷ []) true {c = after_gap}
      refl refl

-- Orders 1 and 2 are added, one trades, order 1 leaves.
abbrev day : List MeMarketUpdate
day =
    update_of MarketUpdateType.add 1
    ∷ update_of MarketUpdateType.add 2
    ∷ update_of MarketUpdateType.trade 0
    ∷ update_of MarketUpdateType.cancel 1
    ∷ []

abbrev synthesizer_of : Option Synthesizer → Synthesizer
synthesizer_of none = table
synthesizer_of (some s) = s

abbrev evening : Synthesizer
evening =
    synthesizer_of (add_all (Publisher.publish_all day Publisher.init).to_snapshot Snapshot.init)

add_all-publish_all_example :
    Inv evening
    × (evening.last_inc_seq_num ≡ 4)
    × (replay_all day (λ t o. none) ≡ some (live evening))
unfolding Snapshot.init add_all Publisher.init Publisher.publish_all MemPool.init MemPool.allocate
    MemPool.scan MemPool.deallocate
add_all-publish_all_example = add_all-publish_all day evening refl
