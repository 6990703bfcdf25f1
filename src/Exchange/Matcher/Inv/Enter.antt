-- ===== src/Exchange/Matcher/Inv/Enter.antt =====
-- `addOrdersAtPrice` of exchange/matcher/me_order_book.h returns: the book after it.
use low_latency_electronic_t.Prelude.{
  ℕ, ◌≡◌, ◌≢◌, ◌∙◌, refl, ap, Bool, true, false, Option, some, ptr_eq, if◌then◌else◌, update, arith,
  ℤ,
}
use low_latency_electronic_t.Common.Types.{Side}
use low_latency_electronic_t.Common.MemPool.{MemPool}
use low_latency_electronic_t.Exchange.Matcher.Book.{
  poke, MeOrder, MeOrdersAtPrice, MeOrderBook, level_at, price_to_index, set_best,
}
use low_latency_electronic_t.Exchange.Matcher.Levels.{beats, insert_after, insert_before, promote}
use low_latency_electronic_t.Exchange.Matcher.Inv.Drop.{best_of, bids_with, asks_with}
use low_latency_electronic_t.Exchange.Matcher.Inv.Link.{after4, before4, before5}

cong3 :
    (f : Side → ℤ → ℤ → Bool) {s s' : Side} {x x' y y' : ℤ}
    → s ≡ s'
    → x ≡ x'
    → y ≡ y'
    → f s x y ≡ f s' x' y'
cong3 f e g h i = f (e i) (g i) (h i)

bids_with-best_of : (s : Side) (b : MeOrderBook) → bids_with s (best_of s b) b ≡ b.bids_by_price
bids_with-best_of Side.buy b = refl
bids_with-best_of Side.sell b = refl
bids_with-best_of Side.invalid b = refl
bids_with-best_of Side.max b = refl

asks_with-best_of : (s : Side) (b : MeOrderBook) → asks_with s (best_of s b) b ≡ b.asks_by_price
asks_with-best_of Side.buy b = refl
asks_with-best_of Side.sell b = refl
asks_with-best_of Side.invalid b = refl
asks_with-best_of Side.max b = refl

promote-skip :
    (m h t : ℕ) (b : MeOrderBook)
    → beats (level_at b m).side (level_at b m).price (level_at b h).price ≡ false
    → promote m h t b ≡ some (tt, b)
unfolding promote
promote-skip m h t b e = simp (e)

promote-front :
    (m h t : ℕ) (b : MeOrderBook)
    → beats (level_at b m).side (level_at b m).price (level_at b h).price ≡ true
    → promote m h t b
      ≡ some (
        tt,
        set_best (level_at b m).side (some m) (record b {
          orders_at_price_pool = poke b.orders_at_price_pool t (record (level_at b t) {
            next_entry =
                if ptr_eq (level_at b t).next_entry (some h)
                then some m
                else (level_at b t).next_entry;
          });
        }),
      )
unfolding promote
promote-front m h t b e = simp (e)

-- The level `v` is in the block `m` of the pool `r`, and `q` is the pool of the orders.
module _ (b : MeOrderBook) (q : MemPool MeOrder) (r : MemPool MeOrdersAtPrice) (v : MeOrdersAtPrice)
    (m : ℕ) where
  -- The book with the pool `p` of levels and the head `hd` of the side.
  abbrev pub entered : MemPool MeOrdersAtPrice → Option ℕ → MeOrderBook
  entered p hd = record b {
    order_pool = q;
    orders_at_price_pool = p;
    bids_by_price = bids_with v.side hd b;
    asks_by_price = asks_with v.side hd b;
    price_orders_at_price = update b.price_orders_at_price (price_to_index v.price) (some m);
  }

  -- The book before the search.
  abbrev pub start : MeOrderBook
  start = record b {
    order_pool = q;
    orders_at_price_pool = r;
    price_orders_at_price = update b.price_orders_at_price (price_to_index v.price) (some m);
  }

  abbrev pub kept : MemPool MeOrdersAtPrice → MeOrderBook
  kept p = record start { orders_at_price_pool = p }

  pub kept-entered : (p : MemPool MeOrdersAtPrice) → kept p ≡ entered p (best_of v.side b)
  kept-entered p = simp (bids_with-best_of v.side b, asks_with-best_of v.side b)

  pub set-entered :
      (p : MemPool MeOrdersAtPrice) (hd : Option ℕ) → set_best v.side hd (kept p) ≡ entered p hd
  unfolding set_best
  set-entered p hd = go v.side
    where
      go :
          (s : Side)
          → set_best s hd (kept p)
            ≡ record (kept p) { bids_by_price = bids_with s hd b; asks_by_price = asks_with s hd b }
      go Side.buy = refl
      go Side.sell = refl
      go Side.invalid = refl
      go Side.max = refl

  pub insert_after_lem :
      (a h : ℕ)
      → a ≢ m
      → h ≢ m
      → (r.store h).object.prev_entry ≡ some a
      → (r.store a).object.next_entry ≡ some h
      → insert_after m h h start ≡ some (tt, kept (after4 b r v m a h))
  unfolding insert_after
  insert_after_lem a h n n' pv nx = ground arith

  -- The links of `insert_before`, but for its last statement.
  insert_before-links :
      (a h t : ℕ)
      → (r.store t).object.prev_entry ≡ some a
      → insert_before m h t start ≡ promote m h t (kept (before4 b r v m a t))
  unfolding insert_before
  insert_before-links a h t pv = simp (pv) refl

  -- The sides and prices are as before the links.
  same_sides :
      (a t x : ℕ) → (level_at (kept (before4 b r v m a t)) x).side ≡ (r.store x).object.side
  same_sides a t x = ground arith

  same_prices :
      (a t x : ℕ) → (level_at (kept (before4 b r v m a t)) x).price ≡ (r.store x).object.price
  same_prices a t x = ground arith

  same-beats :
      (a h t : ℕ)
      → (r.store m).object ≡ v
      → (r.store h).object ≡ level_at b h
      → beats
          (level_at (kept (before4 b r v m a t)) m).side
          (level_at (kept (before4 b r v m a t)) m).price
          (level_at (kept (before4 b r v m a t)) h).price
        ≡ beats v.side v.price (level_at b h).price
  same-beats a h t held same =
      cong3 beats (same_sides a t m ∙ ap (λ (l : MeOrdersAtPrice). l.side) held)
        (same_prices a t m ∙ ap (λ (l : MeOrdersAtPrice). l.price) held)
        (same_prices a t h ∙ ap (λ (l : MeOrdersAtPrice). l.price) same)

  pub insert_before_lem :
      (a h t : ℕ)
      → (r.store m).object ≡ v
      → beats v.side v.price (level_at b h).price ≡ false
      → (r.store h).object ≡ level_at b h
      → (r.store t).object.prev_entry ≡ some a
      → insert_before m h t start ≡ some (tt, entered (before4 b r v m a t) (best_of v.side b))
  insert_before_lem a h t held x same pv =
      let after = kept (before4 b r v m a t) in
      insert_before-links a h t pv
      ∙ promote-skip m h t after (same-beats a h t held same ∙ x)
      ∙ ap (λ (c : MeOrderBook). some (tt {0}, c)) (kept-entered (before4 b r v m a t))

  pub insert_front_lem :
      (a h : ℕ)
      → (r.store m).object ≡ v
      → beats v.side v.price (level_at b h).price ≡ true
      → (r.store h).object ≡ level_at b h
      → (r.store h).object.prev_entry ≡ some a
      → insert_before m h h start ≡ some (tt, entered (before5 b r v m a h) (some m))
  insert_front_lem a h held x same pv =
      let after = kept (before4 b r v m a h) in
      let side = same_sides a h m ∙ ap (λ (l : MeOrdersAtPrice). l.side) held in
      insert_before-links a h h pv
      ∙ promote-front m h h after (same-beats a h h held same ∙ x)
      ∙ ap (λ c. some (tt {0}, set_best c (some m) (kept (before5 b r v m a h)))) side
      ∙ ap (λ (c : MeOrderBook). some (tt {0}, c)) (set-entered (before5 b r v m a h) (some m))
