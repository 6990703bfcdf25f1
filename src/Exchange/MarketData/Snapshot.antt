-- ===== src/Exchange/MarketData/Snapshot.antt =====
-- exchange/market_data/snapshot_synthesizer.cpp: the table of live orders, kept from the
-- incremental stream, and the snapshots made of it. `none` is the end of the process by a failed
-- `ASSERT` or an `at` out of range.
pub mod Table
pub mod Stream
use low_latency_electronic_t.Prelude.{
  ℕ, zero, suc, ◌+◌, ◌≡◌, Option, none, some, List, [], ◌∷◌, ◌++◌, ltb, ◌==◌, if◌then◌else◌, update,
}
use low_latency_electronic_t.Common.Types.{
  Side, me_max_tickers, me_max_order_ids, ticker_id_invalid, price_invalid, qty_invalid,
  priority_invalid,
}
use low_latency_electronic_t.Common.MemPool.{MemPool}
use low_latency_electronic_t.Common.MemPool
use low_latency_electronic_t.Exchange.Messages.{
  MarketUpdateType, MeMarketUpdate, MdpMarketUpdate, default_market_update,
}

-- The pointers of the table are indices of blocks in the pool.
pub record Synthesizer : Type 0 where
  pub ticker_orders : ℕ → ℕ → Option ℕ
  pub last_inc_seq_num : ℕ
  pub order_pool : MemPool MeMarketUpdate

unfoldable pub init : Synthesizer
unfolding MemPool.init
init = record {
  ticker_orders = λ t o. none;
  last_inc_seq_num = 0;
  order_pool = MemPool.init me_max_order_ids default_market_update;
}

abbrev pub set_entry : Synthesizer → ℕ → ℕ → Option ℕ → ℕ → ℕ → Option ℕ
set_entry s t o p = update s.ticker_orders t (update (s.ticker_orders t) o p)

-- The three cases of `addToSnapshot` that change the table; ticker and order ids are in range.
unfoldable pub on_add : MeMarketUpdate → Synthesizer → Option Synthesizer
unfolding MemPool.allocate
on_add me s = elim (s.ticker_orders me.ticker_id me.order_id) [
  | some p ↦ none
  | none ↦ elim (MemPool.allocate s.order_pool me) [
    | none ↦ none
    | some (p, pool) ↦ some (record s {
      ticker_orders = set_entry s me.ticker_id me.order_id (some p);
      order_pool = pool;
    })
  ]
]

unfoldable pub on_modify : MeMarketUpdate → Synthesizer → Option Synthesizer
on_modify me s = elim (s.ticker_orders me.ticker_id me.order_id) [
  | none ↦ none
  | some p ↦
      let order : MeMarketUpdate = (s.order_pool.store p).object in
      if order.order_id == me.order_id
      then some (record s {
        order_pool = record s.order_pool {
          store = update s.order_pool.store p (record {
            object = record order { qty = me.qty; price = me.price };
            is_free = (s.order_pool.store p).is_free;
          });
        };
      })
      else none
]

unfoldable pub on_cancel : MeMarketUpdate → Synthesizer → Option Synthesizer
unfolding MemPool.deallocate
on_cancel me s = elim (s.ticker_orders me.ticker_id me.order_id) [
  | none ↦ none
  | some p ↦ elim (MemPool.deallocate s.order_pool p) [
    | none ↦ none
    | some pool ↦
        some (record s {
          ticker_orders = set_entry s me.ticker_id me.order_id none;
          order_pool = pool;
        })
  ]
]

unfoldable pub apply_update : MeMarketUpdate → Synthesizer → Option Synthesizer
unfolding on_add on_modify on_cancel
apply_update me s = elim me.type [
  | MarketUpdateType.add ↦ if ltb me.order_id me_max_order_ids then on_add me s else none
  | MarketUpdateType.modify ↦ if ltb me.order_id me_max_order_ids then on_modify me s else none
  | MarketUpdateType.cancel ↦ if ltb me.order_id me_max_order_ids then on_cancel me s else none
  | _ ↦ some s
]

unfoldable pub add_to_snapshot : MdpMarketUpdate → Synthesizer → Option Synthesizer
unfolding apply_update
add_to_snapshot u s =
    if ltb u.me_market_update.ticker_id me_max_tickers
    then elim (apply_update u.me_market_update s) [
      | none ↦ none
      | some s' ↦
          if u.seq_num == s'.last_inc_seq_num + 1
          then some (record s' { last_inc_seq_num = u.seq_num })
          else none
    ]
    else none

-- The loop of `run` over the waiting updates.
unfoldable pub add_all : List MdpMarketUpdate → Synthesizer → Option Synthesizer
unfolding add_to_snapshot
add_all [] s = some s
add_all (u ∷ us) s = elim (add_to_snapshot u s) [ none ↦ none | some s' ↦ add_all us s' ]

-- The marker at either end of a snapshot: its order id is the last incremental sequence number.
abbrev pub marker : MarketUpdateType → ℕ → MeMarketUpdate
marker type seq = record {
  type = type;
  order_id = seq;
  ticker_id = ticker_id_invalid;
  side = Side.invalid;
  price = price_invalid;
  qty = qty_invalid;
  priority = priority_invalid;
}

-- The live orders with ids from `o` on, for `rounds` ids.
unfoldable pub orders_from : Synthesizer → ℕ → ℕ → ℕ → List MeMarketUpdate
orders_from s t zero o = []
orders_from s t (suc rounds) o =
    let rest = orders_from s t rounds (o + 1) in
    elim (s.ticker_orders t o) [ none ↦ rest | some p ↦ (s.order_pool.store p).object ∷ rest ]

-- A CLEAR and the live orders for each of the tickers from `t` on.
unfoldable pub tickers_from : Synthesizer → ℕ → ℕ → ℕ → List MeMarketUpdate
unfolding orders_from
tickers_from s num_orders zero t = []
tickers_from s num_orders (suc rounds) t =
    let rest = tickers_from s num_orders rounds (t + 1) in
    record default_market_update { type = MarketUpdateType.clear; ticker_id = t }
    ∷ (orders_from s t num_orders 0 ++ rest)

-- The frames of a snapshot are numbered from 0.
unfoldable pub number_frames : ℕ → List MeMarketUpdate → List MdpMarketUpdate
number_frames n [] = []
number_frames n (u ∷ us) = record { seq_num = n; me_market_update = u } ∷ number_frames (n + 1) us

-- `publishSnapshot`: what goes to the snapshot socket, over arrays of the given sizes.
unfoldable pub snapshot_frames : ℕ → ℕ → Synthesizer → List MdpMarketUpdate
unfolding tickers_from number_frames
snapshot_frames num_tickers num_orders s = number_frames 0 (
    marker MarketUpdateType.snapshot_start s.last_inc_seq_num
    ∷ (tickers_from s num_orders num_tickers 0
        ++ marker MarketUpdateType.snapshot_end s.last_inc_seq_num ∷ []))

unfoldable pub publish_snapshot : Synthesizer → List MdpMarketUpdate
unfolding snapshot_frames
publish_snapshot s = snapshot_frames me_max_tickers me_max_order_ids s
