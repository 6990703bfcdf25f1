-- ===== src/Exchange/MarketData/Snapshot/Table.antt =====
-- The table of the synthesizer (exchange/market_data/snapshot_synthesizer.cpp) as a map from ticker
-- and order id to the live order.
use mathlib.Core.Option.{some-injective}
use low_latency_electronic_t.Prelude.{
  ℕ, ◌<◌, ◌≡◌, ◌≢◌, inl, inr, refl, sym, ap, ◌∙◌, true, false, Option, none, some, update, arith,
  Option-cases,
}
use low_latency_electronic_t.Common.Types.{me_max_order_ids}
use low_latency_electronic_t.Common.MemPool.{MemPool}
use low_latency_electronic_t.Common.MemPool
use low_latency_electronic_t.Common.MemPool.Laws
use low_latency_electronic_t.Exchange.Messages.{MarketUpdateType, MeMarketUpdate}
use low_latency_electronic_t.Exchange.MarketData.Snapshot.{
  Synthesizer, set_entry, on_add, on_modify, on_cancel, apply_update,
}

-- The live orders, by ticker and order id.
abbrev pub Live : Type 0
Live = ℕ → ℕ → Option MeMarketUpdate

-- The order that an entry of the table points to.
abbrev pub entry : Synthesizer → Option ℕ → Option MeMarketUpdate
entry s none = none
entry s (some p) = some (s.order_pool.store p).object

abbrev pub live : Synthesizer → Live
live s t o = entry s (s.ticker_orders t o)

abbrev pub write : Live → ℕ → ℕ → Option MeMarketUpdate → Live
write v t o e = update v t (update (v t) o e)

-- An entry points to a block in use, which holds the order of that ticker and id, as it was added;
-- so no two entries share a block.
pub record Inv (s : Synthesizer) : Type 0 where
  pub pool : MemPool.Laws.IsValid s.order_pool
  pub entries :
      (t o p : ℕ)
      → s.ticker_orders t o ≡ some p
      → (p < s.order_pool.size)
        × ((s.order_pool.store p).is_free ≡ false)
        × ((s.order_pool.store p).object.ticker_id ≡ t)
        × ((s.order_pool.store p).object.order_id ≡ o)
        × ((s.order_pool.store p).object.type ≡ MarketUpdateType.add)

module _ (me : MeMarketUpdate) (s : Synthesizer) (inv : Inv s) where
  abbrev pub Stored : Option Synthesizer → Option MeMarketUpdate → Type 0
  Stored r e =
      (s' : Synthesizer) × (r ≡ some s')
      × Inv s'
      × ((t o : ℕ) → live s' t o ≡ write (live s) me.ticker_id me.order_id e t o)

  -- Blocks of live orders are in use, so that a fresh block is none of theirs.
  entry-fresh :
      (p q t o : ℕ) → s.ticker_orders t o ≡ some q → (s.order_pool.store p).is_free ≡ true → q ≢ p
  entry-fresh p q t o h f e = ground (arith, inv.entries t o q)

  -- No two entries share a block.
  entry_inj :
      (p t o t' o' : ℕ)
      → s.ticker_orders t o ≡ some p
      → s.ticker_orders t' o' ≡ some p
      → (t' ≡ t) × (o' ≡ o)
  entry_inj p t o t' o' h h' = ground (arith, inv.entries t o p, inv.entries t' o' p)

  -- An update that adds an order which is not live stores it, if the pool has room.
  pub on_add-Stored :
      me.type ≡ MarketUpdateType.add
      → live s me.ticker_id me.order_id ≡ none
      → MemPool.allocate s.order_pool me ≢ none
      → Stored (on_add me s) (some me)
  unfolding on_add
  on_add-Stored added missing room = elim (Option-cases (MemPool.allocate s.order_pool me)) [
    | inl e ↦ absurd (room e)
    | inr ((p, pool), e) ↦
        let a = MemPool.Laws.allocate-Allocated s.order_pool me inv.pool e in
        (
          record s {
            ticker_orders = set_entry s me.ticker_id me.order_id (some p);
            order_pool = pool;
          },
          ground arith,
          record {
            pool = a.valid;
            entries = λ t o q h. ground (
              arith,
              inv.entries t o q,
              a.others q,
              a.written,
              a.same_size,
              a.in_range,
              entry-fresh p q t o,
            );
          },
          λ t o. elim (Option-cases (s.ticker_orders t o)) [
            | inl n ↦ ground (arith, a.written)
            | inr (q, h) ↦ ground (arith, a.written, a.others q, entry-fresh p q t o)
          ],
        )
  ]

  -- A modification of a live order changes its quantity and price only.
  pub on_modify-Stored :
      (old : MeMarketUpdate)
      → live s me.ticker_id me.order_id ≡ some old
      → Stored (on_modify me s) (some (record old { qty = me.qty; price = me.price }))
  unfolding on_modify
  on_modify-Stored old found = elim (Option-cases (s.ticker_orders me.ticker_id me.order_id)) [
    | inl e ↦ absurd (ground arith)
    | inr (p, e) ↦
        let w = inv.entries me.ticker_id me.order_id p e in
        let order : MeMarketUpdate = (s.order_pool.store p).object in
        (
          record s {
            order_pool = record s.order_pool {
              store = update s.order_pool.store p (record {
                object = record order { qty = me.qty; price = me.price };
                is_free = (s.order_pool.store p).is_free;
              });
            };
          },
          ground arith,
          record {
            pool = ground (arith, inv.pool);
            entries = λ t o q h.
                ground (arith, inv.entries t o q, entry_inj p me.ticker_id me.order_id t o);
          },
          λ t o. elim (Option-cases (s.ticker_orders t o)) [
            | inl n ↦ ground arith
            | inr (q, h) ↦ ground (arith, entry_inj p me.ticker_id me.order_id t o)
          ],
        )
  ]

  -- A cancellation of a live order takes it out.
  pub on_cancel-Stored :
      (old : MeMarketUpdate)
      → live s me.ticker_id me.order_id ≡ some old
      → Stored (on_cancel me s) none
  unfolding on_cancel
  on_cancel-Stored old found = elim (Option-cases (s.ticker_orders me.ticker_id me.order_id)) [
    | inl e ↦ absurd (ground arith)
    | inr (p, e) ↦
        let w = inv.entries me.ticker_id me.order_id p e in
        let (pool, d, v, size, _, freed, others) =
          MemPool.Laws.deallocate_lem s.order_pool p inv.pool w.0 w.1 in
        (
          record s { ticker_orders = set_entry s me.ticker_id me.order_id none; order_pool = pool },
          ground arith,
          record {
            pool = v;
            entries = λ t o q h.
                ground
                  (arith, inv.entries t o q, others q, entry_inj p me.ticker_id me.order_id t o);
          },
          λ t o. elim (Option-cases (s.ticker_orders t o)) [
            | inl n ↦ ground arith
            | inr (q, h) ↦ ground (arith, others q, entry_inj p me.ticker_id me.order_id t o)
          ],
        )
  ]

-- What an update does to the map of live orders; none for an update that does not fit it.
unfoldable pub replay : MeMarketUpdate → Live → Option Live
replay me v = elim me.type [
  | MarketUpdateType.add ↦ elim (v me.ticker_id me.order_id) [
    | none ↦ some (write v me.ticker_id me.order_id (some me))
    | some old ↦ none
  ]
  | MarketUpdateType.modify ↦ elim (v me.ticker_id me.order_id) [
    | none ↦ none
    | some old ↦
        some
          (write v me.ticker_id me.order_id (some (record old { qty = me.qty; price = me.price })))
  ]
  | MarketUpdateType.cancel ↦ elim (v me.ticker_id me.order_id) [
    | none ↦ none
    | some old ↦ some (write v me.ticker_id me.order_id none)
  ]
  | _ ↦ some v
]

-- The table implements the map: for an order id in range and a pool with room, an update that
-- fits the map of live orders is applied, the invariant holds afterwards, and the table stands
-- for the map after the update.
pub apply_update_refines :
    (me : MeMarketUpdate) (s : Synthesizer) (v : Live)
    → Inv s
    → me.order_id < me_max_order_ids
    → MemPool.allocate s.order_pool me ≢ none
    → replay me (live s) ≡ some v
    → (s' : Synthesizer) × (apply_update me s ≡ some s')
      × Inv s'
      × ((t o : ℕ) → live s' t o ≡ v t o)
unfolding replay apply_update
apply_update_refines me s v inv small room e = go me.type refl
  where
    Goal : Type 0
    Goal =
        (s' : Synthesizer) × (apply_update me s ≡ some s')
        × Inv s'
        × ((t o : ℕ) → live s' t o ≡ v t o)

    stored :
        (r : Option Synthesizer) (f : Option MeMarketUpdate)
        → Stored me s inv r f
        → apply_update me s ≡ r
        → replay me (live s) ≡ some (write (live s) me.ticker_id me.order_id f)
        → Goal
    stored r f (s', p, i, same) q w =
        (s', q ∙ p, i, λ t o. same t o ∙ ap (λ (g : Live). g t o) (some-injective _ _ (sym w ∙ e)))

    unchanged : apply_update me s ≡ some s → replay me (live s) ≡ some (live s) → Goal
    unchanged q w = (s, q, inv, λ t o. ap (λ (g : Live). g t o) (some-injective _ _ (sym w ∙ e)))

    go : (k : MarketUpdateType) → me.type ≡ k → Goal
    go MarketUpdateType.add k = elim (Option-cases (live s me.ticker_id me.order_id)) [
      | inl missing ↦
          stored (on_add me s) (some me) (on_add-Stored me s inv k missing room) (ground arith)
            (simp (k, missing, replay))
      | inr (old, found) ↦ absurd (ground arith)
    ]
    go MarketUpdateType.modify k = elim (Option-cases (live s me.ticker_id me.order_id)) [
      | inl missing ↦ absurd (ground arith)
      | inr (old, found) ↦
          stored (on_modify me s) (some (record old { qty = me.qty; price = me.price }))
            (on_modify-Stored me s inv old found) (ground arith) (simp (k, found, replay))
    ]
    go MarketUpdateType.cancel k = elim (Option-cases (live s me.ticker_id me.order_id)) [
      | inl missing ↦ absurd (ground arith)
      | inr (old, found) ↦
          stored (on_cancel me s) none (on_cancel-Stored me s inv old found) (ground arith)
            (simp (k, found, replay))
    ]
    go MarketUpdateType.invalid k = unchanged (rw (k, apply_update)) (rw (k, replay))
    go MarketUpdateType.clear k = unchanged (rw (k, apply_update)) (rw (k, replay))
    go MarketUpdateType.trade k = unchanged (rw (k, apply_update)) (rw (k, replay))
    go MarketUpdateType.snapshot_start k = unchanged (rw (k, apply_update)) (rw (k, replay))
    go MarketUpdateType.snapshot_end k = unchanged (rw (k, apply_update)) (rw (k, replay))
