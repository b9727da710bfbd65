-- ===== src/Book/Indexed/Kept.antt =====
-- Cancelling, modifying and triggering (src/common/Book.cpp) keep the identifiers in order.
use eu_nex.Common.{
  OnSome, OnSome-some, ℕ, ◌≡◌, sym, ◌≢◌, ◌∙◌, [], ◌∷◌, some, arith, All, All-mono, All-both,
  Option-cases, inl, inr,
}
use eu_nex.Common.Int.{ℤ}
use eu_nex.Types.{Side, buy, sell, Order, ExecutionReport}
use eu_nex.Book.Levels.{Levels, Index, index_find, index_erase}
use eu_nex.Book.Levels.Sides.{AllOrders, keep_level-All}
use eu_nex.Book.Levels.Index.{
  Mapped, Indexed, IsRising, AllRising, Without, AllWithout, index_find-erase_ne,
  index_find-erase_none, index_erase-KeysBelow,
}
use eu_nex.Book.State.{Book}
use eu_nex.Book.Cancel.{
  take_order, cancel_stop_order, take_at, cancel_resting, cancel_order, levels_of, set_levels,
}
use eu_nex.Book.Validity.{IsValid}
use eu_nex.Book.Validity.Cancel.{take_order-All}
use eu_nex.Book.Indexed.{IsIndexed, IsApart}
use eu_nex.Book.Indexed.Cancel.{
  IsAbsent, take_order-IsRising, levels_of-Indexed, levels_of-rising, cancel_resting-removes,
  take_order-none,
}

take_at-AllOrders :
    (P : ℤ → Order → Type 0) (id : ℕ) (p : ℤ) (ls : Levels)
    → AllOrders P ls
    → OnSome (λ r. AllOrders P r.1) (take_at id p ls)
unfolding take_at
take_at-AllOrders P id p [] h = tt
take_at-AllOrders P id p (l ∷ ls) h = elim (Option-cases (take_order id l.orders)) [
  | inl e ↦ rw e (ground (arith, take_at-AllOrders P id p ls h.1))
  | inr (r, e) ↦
      let kept =
        keep_level-All (λ m. All (P m.price) m.orders) l r.1 ls
          (OnSome-some _ _ (take_order-All (P l.price) id l.orders h.0) e).1 h.1 in
      rw e (ground (arith, take_at-AllOrders P id p ls h.1, kept))
]

take_at-AllRising :
    (id : ℕ) (p : ℤ) (ls : Levels) → AllRising ls → OnSome (λ r. AllRising r.1) (take_at id p ls)
unfolding take_at
take_at-AllRising id p [] h = tt
take_at-AllRising id p (l ∷ ls) h = elim (Option-cases (take_order id l.orders)) [
  | inl e ↦ rw e (ground (arith, take_at-AllRising id p ls h.1))
  | inr (r, e) ↦
      let kept =
        keep_level-All (λ m. IsRising m.orders) l r.1 ls
          (OnSome-some _ _ (take_order-IsRising id l.orders h.0) e) h.1 in
      rw e (ground (arith, take_at-AllRising id p ls h.1, kept))
]

-- Erasing an entry hides no order that has another identifier.
Indexed-erase :
    (s : Side) (id : ℕ) (m : Index) (ls : Levels)
    → AllWithout id ls
    → Indexed s m ls
    → Indexed s (index_erase id m) ls
Indexed-erase s id m [] h i = tt
Indexed-erase s id m (l ∷ ls) h i = (
  All-mono (λ o. (o.order_id ≢ id) × Mapped s m l.price o) (Mapped s (index_erase id m) l.price)
      (λ o e. index_find-erase_ne o.order_id id m (λ same. e.0 (sym same)) ∙ e.1) l.orders
      (All-both (λ (o : Order). o.order_id ≢ id) (Mapped s m l.price) l.orders h.0 i.0),
  Indexed-erase s id m ls h.1 i.1,
)

-- The levels of a side give way to fewer orders, and the entry of one that is gone is erased.
erased-IsIndexed :
    {n : ℕ} (s : Side) (id : ℕ) (b : Book) (ls : Levels)
    → let b' = record (set_levels s ls b) { order_index = index_erase id b.order_index } in
      IsIndexed n b → IsAbsent id b' → Indexed s b.order_index ls → AllRising ls → IsIndexed n b'
erased-IsIndexed {n} buy id b ls i gone indexed rising = record {
  bids = Indexed-erase buy id b.order_index ls gone.1 indexed;
  asks = Indexed-erase sell id b.order_index b.asks gone.2 i.asks;
  rising_bids = rising;
  rising_asks = i.rising_asks;
  keys = index_erase-KeysBelow n id b.order_index i.keys;
  stops =
      All-mono (IsApart n b.order_index) (IsApart n (index_erase id b.order_index))
        (λ o e. (e.0, index_find-erase_none o.order_id id b.order_index e.1)) b.stop_orders i.stops;
  rising_stops = i.rising_stops;
}
erased-IsIndexed {n} sell id b ls i gone indexed rising = record {
  bids = Indexed-erase buy id b.order_index b.bids gone.1 i.bids;
  asks = Indexed-erase sell id b.order_index ls gone.2 indexed;
  rising_bids = i.rising_bids;
  rising_asks = rising;
  keys = index_erase-KeysBelow n id b.order_index i.keys;
  stops =
      All-mono (IsApart n b.order_index) (IsApart n (index_erase id b.order_index))
        (λ o e. (e.0, index_find-erase_none o.order_id id b.order_index e.1)) b.stop_orders i.stops;
  rising_stops = i.rising_stops;
}

cancel_resting-IsIndexed :
    {n : ℕ} (id : ℕ) (b : Book)
    → IsValid b
    → IsIndexed n b
    → Without id b.stop_orders
    → OnSome (λ r. IsIndexed n r.0) (cancel_resting id b)
unfolding cancel_resting
cancel_resting-IsIndexed id b v i stops = elim (Option-cases (index_find id b.order_index)) [
  | inl e ↦ rw e tt
  | inr ((s, p), e) ↦ elim (Option-cases (take_at id p (levels_of s b))) [
    | inl missing ↦ rw (e, missing) tt
    | inr (r, found) ↦
        let gone = rw (e, found) at (cancel_resting-removes id b v i stops) in
        rw (e, found)
          (erased-IsIndexed s id b r.1 i gone
            (OnSome-some _ _
              (take_at-AllOrders (Mapped s b.order_index) id p (levels_of s b)
                (levels_of-Indexed s b i))
              found)
            (OnSome-some _ _ (take_at-AllRising id p (levels_of s b) (levels_of-rising s b i))
              found))
  ]
]

cancel_order-kept :
    {n : ℕ} (id : ℕ) (b : Book)
    → IsValid b
    → IsIndexed n b
    → OnSome (λ r. IsIndexed n r.0) (cancel_order id b)
unfolding cancel_order cancel_stop_order
cancel_order-kept {n} id b v i = elim (Option-cases (take_order id b.stop_orders)) [
  | inl e ↦ rw e (cancel_resting-IsIndexed id b v i (take_order-none id b.stop_orders e))
  | inr (r, e) ↦ rw e (record {
    bids = i.bids;
    asks = i.asks;
    rising_bids = i.rising_bids;
    rising_asks = i.rising_asks;
    keys = i.keys;
    stops =
        (OnSome-some _ _ (take_order-All (IsApart n b.order_index) id b.stop_orders i.stops) e).1;
    rising_stops = OnSome-some _ _ (take_order-IsRising id b.stop_orders i.rising_stops) e;
  })
]

-- A cancellation that succeeds keeps the index and the identifiers of a valid book in order.
pub cancel_order-IsIndexed :
    {n : ℕ} (id : ℕ) (b : Book) {b' : Book} {rpt : ExecutionReport}
    → IsValid b
    → IsIndexed n b
    → cancel_order id b ≡ some (b', rpt)
    → IsIndexed n b'
cancel_order-IsIndexed id b v i e = OnSome-some _ _ (cancel_order-kept id b v i) e
