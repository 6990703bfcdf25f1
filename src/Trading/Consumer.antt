-- ===== src/Trading/Consumer.antt =====
-- trading/market_data/market_data_consumer.cpp: the client's end of the incremental stream and
-- its recovery from a snapshot. A `std::map` is a list of keys and values in the order of the
-- keys; `none` is the end of the process by a failed `ASSERT`, or a `memcpy` past the end of a
-- buffer, whose behaviour is undefined.
pub mod Live
pub mod Recovery
pub mod FromSnapshot
pub mod Stuck
use low_latency_electronic_t.Prelude.{
  ℕ, ◌+◌, ◌-◌, leb, length, Bool, true, false, Option, none, some, List, [], ◌∷◌, ◌++◌, ltb, ◌==◌,
  ◌&&◌, ◌||◌, not, if◌then◌else◌,
}
use low_latency_electronic_t.Exchange.Messages.{MarketUpdateType, MeMarketUpdate, MdpMarketUpdate}

abbrev pub QueuedMarketUpdates : Type 0
QueuedMarketUpdates = List (ℕ × MeMarketUpdate)

-- `m[k] = u`.
unfoldable pub put : ℕ → MeMarketUpdate → QueuedMarketUpdates → QueuedMarketUpdates
put k u [] = (k, u) ∷ []
put k u ((j, w) ∷ m) =
    if k == j then (k, u) ∷ m else (if ltb k j then (k, u) ∷ (j, w) ∷ m else (j, w) ∷ put k u m)

-- `m.find(k) != m.end()`.
unfoldable pub contains : ℕ → QueuedMarketUpdates → Bool
contains k [] = false
contains k ((j, w) ∷ m) = k == j || contains k m

-- `forwarded` is what was written to the queue of the trade engine, oldest first; `can_join` says
-- whether the snapshot socket can be set up; `joined` whether it is; `snapshot_valid` is the
-- `next_rcv_valid_index_` of the snapshot socket, in whole messages.
pub record Consumer : Type 0 where
  pub next_exp_inc_seq_num : ℕ
  pub in_recovery : Bool
  pub snapshot_queued_msgs : QueuedMarketUpdates
  pub incremental_queued_msgs : QueuedMarketUpdates
  pub forwarded : List MeMarketUpdate
  pub can_join : Bool
  pub joined : Bool
  pub snapshot_valid : ℕ

unfoldable pub init : Bool → Consumer
init can_join = record {
  next_exp_inc_seq_num = 1;
  in_recovery = false;
  snapshot_queued_msgs = [];
  incremental_queued_msgs = [];
  forwarded = [];
  can_join = can_join;
  joined = false;
  snapshot_valid = 0;
}

abbrev pub is_start : MarketUpdateType → Bool
is_start MarketUpdateType.snapshot_start = true
is_start _ = false

abbrev pub is_end : MarketUpdateType → Bool
is_end MarketUpdateType.snapshot_end = true
is_end _ = false

-- `final_events.push_back`, which leaves out the two markers.
abbrev pub event_of : MeMarketUpdate → List MeMarketUpdate → List MeMarketUpdate
event_of u us = if is_start u.type || is_end u.type then us else u ∷ us

unfoldable pub start_snapshot_sync : Consumer → Option Consumer
start_snapshot_sync c =
    if c.can_join
    then some (record c { snapshot_queued_msgs = []; incremental_queued_msgs = []; joined = true })
    else none

-- Phase A: the events of the snapshot, if its sequence numbers run on from `next`.
unfoldable pub snapshot_events : ℕ → QueuedMarketUpdates → Option (List MeMarketUpdate)
snapshot_events next [] = some []
snapshot_events next ((k, u) ∷ m) =
    let rest = snapshot_events (next + 1) m in
    if k == next then elim rest [ none ↦ none | some us ↦ some (event_of u us) ] else none

-- `rbegin()->second`, behind a first entry.
unfoldable pub last_message : MeMarketUpdate → QueuedMarketUpdates → MeMarketUpdate
last_message u [] = u
last_message u ((k, w) ∷ m) = last_message w m

-- Phase B: the incrementals from `next` on, and the number expected after them. Older ones are
-- skipped, a gap gives no events.
unfoldable pub incremental_events : ℕ → QueuedMarketUpdates → ℕ × Option (List MeMarketUpdate)
incremental_events next [] = (next, some [])
incremental_events next ((k, u) ∷ m) =
    let skipped = incremental_events next m in
    let rest = incremental_events (next + 1) m in
    if ltb k next
    then skipped
    else (if k == next
        then (rest.0, elim rest.1 [ none ↦ none | some us ↦ some (event_of u us) ])
        else (next, none))

-- `McastSocket::leave` on the snapshot socket: nothing without a socket; else the socket is closed
-- and its buffer given up.
unfoldable pub leave : Consumer → Consumer
leave c = if c.joined then record c { joined = false; snapshot_valid = 0 } else c

-- Phases B and C, once the snapshot is complete.
unfoldable pub finish_recovery : MeMarketUpdate → List MeMarketUpdate → Consumer → Consumer
unfolding incremental_events leave
finish_recovery last events c =
    let (next, incrementals) = incremental_events (last.order_id + 1) c.incremental_queued_msgs in
    elim incrementals [
      | none ↦ record c { next_exp_inc_seq_num = next; snapshot_queued_msgs = [] }
      | some us ↦ leave (record c {
        next_exp_inc_seq_num = next;
        in_recovery = false;
        snapshot_queued_msgs = [];
        incremental_queued_msgs = [];
        forwarded = c.forwarded ++ (events ++ us);
      })
    ]

unfoldable pub check_snapshot_sync : Consumer → Consumer
unfolding snapshot_events last_message finish_recovery
check_snapshot_sync c = elim c.snapshot_queued_msgs [
  | [] ↦ c
  | (k, first) ∷ m ↦
      if is_start first.type
      then elim (snapshot_events 0 ((k, first) ∷ m)) [
        | none ↦ record c { snapshot_queued_msgs = [] }
        | some events ↦
            let last = last_message first m in
            if is_end last.type then finish_recovery last events c else c
      ]
      else record c { snapshot_queued_msgs = [] }
]

unfoldable pub queue_message : Bool → MdpMarketUpdate → Consumer → Consumer
unfolding contains put check_snapshot_sync
queue_message true m c =
    let queued : QueuedMarketUpdates =
      if contains m.seq_num c.snapshot_queued_msgs then [] else c.snapshot_queued_msgs in
    check_snapshot_sync
      (record c { snapshot_queued_msgs = put m.seq_num m.me_market_update queued })
queue_message false m c = check_snapshot_sync (record c {
  incremental_queued_msgs = put m.seq_num m.me_market_update c.incremental_queued_msgs;
})

-- One message of the loop of `recvCallback`.
unfoldable pub receive_one : Bool → MdpMarketUpdate → Consumer → Option Consumer
unfolding start_snapshot_sync queue_message
receive_one is_snapshot m c =
    let recovering = record c { in_recovery = true } in
    if c.in_recovery
    then some (queue_message is_snapshot m c)
    else (if m.seq_num == c.next_exp_inc_seq_num
        then (if is_snapshot
            then some c
            else some (record c {
              next_exp_inc_seq_num = c.next_exp_inc_seq_num + 1;
              forwarded = c.forwarded ++ m.me_market_update ∷ [];
            }))
        else elim (start_snapshot_sync recovering) [
          | none ↦ none
          | some c' ↦ some (queue_message is_snapshot m c')
        ])

-- What follows the loop, which handled `i` messages: the rest of the buffer is moved to its front.
-- Here all of it is handled, unless `leave` gave the buffer up: then the size of the `memcpy`,
-- `next_rcv_valid_index_ - i`, is below zero, a number near 2^64. The other socket has no `leave`.
unfoldable pub slide : Bool → ℕ → Consumer → Option Consumer
slide is_snapshot i c =
    if is_snapshot
    then (if ltb c.snapshot_valid i
        then none
        else some (record c { snapshot_valid = c.snapshot_valid - i }))
    else some c

-- The loop over the whole messages of the buffer, and the number of those it handled: it reads
-- `next_rcv_valid_index_` of its socket again before each message.
unfoldable pub receive_all : Bool → ℕ → List MdpMarketUpdate → Consumer → Option (ℕ × Consumer)
unfolding receive_one
receive_all is_snapshot i [] c = some (i, c)
receive_all is_snapshot i (m ∷ ms) c =
    let next : Option (ℕ × Consumer) = elim (receive_one is_snapshot m c) [
      | none ↦ none
      | some c' ↦ receive_all is_snapshot (i + 1) ms c'
    ] in
    if is_snapshot && leb c.snapshot_valid i then some (i, c) else next

-- `recvCallback` on the whole messages of a buffer: a snapshot outside of recovery is discarded.
unfoldable pub recv_callback : Bool → List MdpMarketUpdate → Consumer → Option Consumer
unfolding receive_all slide
recv_callback is_snapshot ms c =
    let read : Consumer = if is_snapshot then record c { snapshot_valid = length ms } else c in
    if is_snapshot && not c.in_recovery
    then some (record c { snapshot_valid = 0 })
    else elim (receive_all is_snapshot 0 ms read) [
      | none ↦ none
      | some (i, c') ↦ slide is_snapshot i c'
    ]
