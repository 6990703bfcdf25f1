-- ===== src/Exchange/MarketData/Snapshot/Stream.antt =====
-- The synthesizer (exchange/market_data/snapshot_synthesizer.cpp) over the whole stream that the
-- publisher sends it.
use mathlib.Core.Option.{some-injective}
use low_latency_electronic_t.Prelude.{
  ℕ, ◌+◌, ◌≡◌, ◌≢◌, inl, inr, refl, sym, ap, ◌∙◌, subst, fun_ext, Option, none, some, List, [], ◌∷◌,
  length, arith, Option-cases,
}
use low_latency_electronic_t.Common.Types.{me_max_order_ids}
use low_latency_electronic_t.Common.MemPool
use low_latency_electronic_t.Common.MemPool.Laws
use low_latency_electronic_t.Exchange.Messages.{
  MarketUpdateType, MeMarketUpdate, MdpMarketUpdate, default_market_update,
}
use low_latency_electronic_t.Exchange.MarketData.Publisher
use low_latency_electronic_t.Exchange.MarketData.Publisher.{number_from}
use low_latency_electronic_t.Exchange.MarketData.Snapshot.{
  Synthesizer, init, on_add, on_modify, on_cancel, apply_update, add_to_snapshot, add_all,
}
use low_latency_electronic_t.Exchange.MarketData.Snapshot.Table.{
  Live, live, write, Inv, Stored, on_add-Stored, on_modify-Stored, on_cancel-Stored, replay,
}

-- What an update that the table accepts does: the update fits the map of live orders.
module _ (me : MeMarketUpdate) (s s' : Synthesizer) (inv : Inv s) where
  abbrev Applied : Type 0
  Applied = Inv s' × (replay me (live s) ≡ some (live s'))

  stored-Applied :
      (r : Option Synthesizer) (f : Option MeMarketUpdate)
      → Stored me s inv r f
      → r ≡ some s'
      → replay me (live s) ≡ some (write (live s) me.ticker_id me.order_id f)
      → Applied
  stored-Applied r f (s1, p, i, same) q w =
      let e : s1 ≡ s' = some-injective _ _ (sym p ∙ q) in
      (subst Inv e i, w ∙ ap some (sym (fun_ext (λ t. fun_ext (λ o. same t o))) ∙ ap live e))

  unchanged-Applied : some s ≡ some s' → replay me (live s) ≡ some (live s) → Applied
  unchanged-Applied q w =
      let e : s ≡ s' = some-injective _ _ q in (subst Inv e inv, w ∙ ap (λ x. some (live x)) e)

  on_add-full : MemPool.allocate s.order_pool me ≡ none → on_add me s ≢ some s'
  unfolding on_add
  on_add-full full = elim (Option-cases (s.ticker_orders me.ticker_id me.order_id)) [
    | inl h ↦ ground arith
    | inr (p, h) ↦ ground arith
  ]

  on_add-taken :
      {old : MeMarketUpdate} → live s me.ticker_id me.order_id ≡ some old → on_add me s ≢ some s'
  unfolding on_add
  on_add-taken found = elim (Option-cases (s.ticker_orders me.ticker_id me.order_id)) [
    | inl h ↦ ground arith
    | inr (p, h) ↦ ground arith
  ]

  on_modify-missing : live s me.ticker_id me.order_id ≡ none → on_modify me s ≢ some s'
  unfolding on_modify
  on_modify-missing missing = elim (Option-cases (s.ticker_orders me.ticker_id me.order_id)) [
    | inl h ↦ ground arith
    | inr (p, h) ↦ ground arith
  ]

  on_cancel-missing : live s me.ticker_id me.order_id ≡ none → on_cancel me s ≢ some s'
  unfolding on_cancel
  on_cancel-missing missing = elim (Option-cases (s.ticker_orders me.ticker_id me.order_id)) [
    | inl h ↦ ground arith
    | inr (p, h) ↦ ground arith
  ]

  apply_update-Applied : apply_update me s ≡ some s' → Applied
  unfolding apply_update replay
  apply_update-Applied e = go me.type refl
    where
      go : (k : MarketUpdateType) → me.type ≡ k → Applied
      go MarketUpdateType.add k = elim (Option-cases (live s me.ticker_id me.order_id)) [
        | inl missing ↦
            let q : on_add me s ≡ some s' = ground arith in
            stored-Applied (on_add me s) (some me)
              (on_add-Stored me s inv k missing (λ full. on_add-full full q)) q
              (simp (k, missing, replay))
        | inr (old, found) ↦ absurd (on_add-taken found (ground arith))
      ]
      go MarketUpdateType.modify k = elim (Option-cases (live s me.ticker_id me.order_id)) [
        | inl missing ↦ absurd (on_modify-missing missing (ground arith))
        | inr (old, found) ↦
            stored-Applied (on_modify me s) (some (record old { qty = me.qty; price = me.price }))
              (on_modify-Stored me s inv old found) (ground arith) (simp (k, found, replay))
      ]
      go MarketUpdateType.cancel k = elim (Option-cases (live s me.ticker_id me.order_id)) [
        | inl missing ↦ absurd (on_cancel-missing missing (ground arith))
        | inr (old, found) ↦
            stored-Applied (on_cancel me s) none (on_cancel-Stored me s inv old found)
              (ground arith) (simp (k, found, replay))
      ]
      go MarketUpdateType.invalid k = unchanged-Applied (ground arith) (rw (k, replay))
      go MarketUpdateType.clear k = unchanged-Applied (ground arith) (rw (k, replay))
      go MarketUpdateType.trade k = unchanged-Applied (ground arith) (rw (k, replay))
      go MarketUpdateType.snapshot_start k = unchanged-Applied (ground arith) (rw (k, replay))
      go MarketUpdateType.snapshot_end k = unchanged-Applied (ground arith) (rw (k, replay))

-- The map of live orders after a list of updates; none if one does not fit.
unfoldable pub replay_all : List MeMarketUpdate → Live → Option Live
replay_all [] v = some v
replay_all (u ∷ us) v = elim (replay u v) [ none ↦ none | some w ↦ replay_all us w ]

apply_update-last_inc_seq_num :
    (me : MeMarketUpdate) (s : Synthesizer) {s' : Synthesizer}
    → apply_update me s ≡ some s'
    → s'.last_inc_seq_num ≡ s.last_inc_seq_num
unfolding apply_update on_add on_modify on_cancel
apply_update-last_inc_seq_num me s e = ground arith

add_to_snapshot-Applied :
    (u : MdpMarketUpdate) (s s' : Synthesizer)
    → Inv s
    → add_to_snapshot u s ≡ some s'
    → Inv s'
      × (replay u.me_market_update (live s) ≡ some (live s'))
      × (s'.last_inc_seq_num ≡ u.seq_num)
unfolding add_to_snapshot
add_to_snapshot-Applied u s s' inv e = elim (Option-cases (apply_update u.me_market_update s)) [
  | inl n ↦ absurd (ground arith)
  | inr (s1, q) ↦
      let (i, w) = apply_update-Applied u.me_market_update s s1 inv q in
      let same : record s1 { last_inc_seq_num = u.seq_num } ≡ s' = ground arith in
      (
        subst Inv same (record { pool = i.pool; entries = i.entries }),
        w ∙ ap (λ x. some (live x)) same,
        sym (ap (λ (x : Synthesizer). x.last_inc_seq_num) same),
      )
]

-- A synthesizer in a valid state that takes a numbered stream of updates without the end of the
-- process has counted all of them; each fitted the map of live orders, and its table stands for
-- the map after them.
pub add_all-replay_all :
    (us : List MeMarketUpdate) (n : ℕ) (s s' : Synthesizer)
    → Inv s
    → s.last_inc_seq_num ≡ n
    → add_all (number_from (n + 1) us) s ≡ some s'
    → Inv s' × (s'.last_inc_seq_num ≡ n + length us) × (replay_all us (live s) ≡ some (live s'))
unfolding add_all replay_all
add_all-replay_all [] n s s' inv m e =
    let same : s ≡ s' = ground arith in
    (
      subst Inv same inv,
      omega (arith, ap (λ (x : Synthesizer). x.last_inc_seq_num) same),
      ap (λ x. some (live x)) same,
    )
add_all-replay_all (u ∷ us) n s s' inv m e =
    let first : MdpMarketUpdate = record { seq_num = n + 1; me_market_update = u } in
    elim (Option-cases (add_to_snapshot first s)) [
      | inl d ↦ absurd (ground arith)
      | inr (s1, d) ↦
          let (i, w, l) = add_to_snapshot-Applied first s s1 inv d in
          let (i', l', w') = add_all-replay_all us (n + 1) s1 s' i l (ground arith) in
          (i', omega (arith, l'), rw (w, replay_all) w')
    ]

init-Inv : Inv init
unfolding init MemPool.init
init-Inv = record {
  pool = MemPool.Laws.init-IsValid me_max_order_ids default_market_update (omega arith);
  entries = λ t o p h. ground arith;
}

-- From the start, a synthesizer that takes all that the publisher sent it without the end of the
-- process has counted every update of the engine; each fitted the map of live orders, and its table
-- stands for the map after them.
pub add_all-publish_all :
    (us : List MeMarketUpdate) (s : Synthesizer)
    → add_all (Publisher.publish_all us Publisher.init).to_snapshot init ≡ some s
    → Inv s × (s.last_inc_seq_num ≡ length us) × (replay_all us (λ t o. none) ≡ some (live s))
unfolding init
add_all-publish_all us s e =
    let (i, l, w) =
      add_all-replay_all us 0 init s init-Inv refl (rw (Publisher.publish_all-init us).1 at e) in
    (i, omega (arith, l), w)
