-- ===== src/Book/Validity/Cancel.antt =====
-- `cancelOrder` and `modifyOrder` of src/common/Book.cpp keep the invariant. A cancellation never
-- crosses the book; a modification turns the order into a sell order and can.
use eu_nex.Common.{
  OnSome, OnSome-some, ℕ, ◌≡◌, true, List, [], ◌∷◌, arith, All, Bool-cases, Option-cases, some, inl,
  inr,
}
use eu_nex.Common.Int.{ℤ, eq_ℤ}
use eu_nex.Types.{Side, buy, sell, Order, ExecutionReport}
use eu_nex.Book.Levels.{Level, Levels, before, index_find}
use eu_nex.Book.Levels.Sides.{
  Rests, AllPrices, SideIsValid, keep_level-All, keep_level-IsSorted, keep_level-NoneEmpty,
}
use eu_nex.Book.State.{Book}
use eu_nex.Book.Cancel.{
  take_order, cancel_stop_order, take_at, cancel_resting, cancel_order, levels_of, set_levels,
}
use eu_nex.Book.Validity.{IsValid, IsParked}

pub take_order-All {κ} :
    (P : Order → Type κ) (id : ℕ) (os : List Order)
    → All P os
    → OnSome (λ r. P r.0 × All P r.1) (take_order id os)
unfolding take_order
take_order-All P id [] h = tt
take_order-All P id (o ∷ os) h = ground (arith, take_order-All P id os h.1)

pub take_at-AllPrices :
    (P : ℤ → Type 0) (id : ℕ) (p : ℤ) (ls : Levels)
    → AllPrices P ls
    → OnSome (λ r. AllPrices P r.1) (take_at id p ls)
unfolding take_at
take_at-AllPrices P id p [] h = tt
take_at-AllPrices P id p (l ∷ ls) h = elim (Option-cases (take_order id l.orders)) [
  | inl e ↦ rw e (ground (arith, take_at-AllPrices P id p ls h.1))
  | inr (r, e) ↦
      let kept = keep_level-All (λ m. P m.price) l r.1 ls h.0 h.1 in
      rw e (ground (arith, take_at-AllPrices P id p ls h.1, kept))
]

tail-SideIsValid : (s : Side) (l : Level) (ls : Levels) → SideIsValid s (l ∷ ls) → SideIsValid s ls
tail-SideIsValid s l ls v = record {
  sorted = v.sorted.1;
  none_empty = v.none_empty.1;
  resting = v.resting.1;
}

take_at-SideIsValid :
    (s : Side) (id : ℕ) (p : ℤ) (ls : Levels)
    → SideIsValid s ls
    → OnSome (λ r. SideIsValid s r.1) (take_at id p ls)
unfolding take_at
take_at-SideIsValid s id p [] v = tt
take_at-SideIsValid s id p (l ∷ ls) v = elim (Bool-cases (eq_ℤ p l.price)) [
  | inl here ↦ elim (Option-cases (take_order id l.orders)) [
    | inl e ↦ rw (here, e) tt
    | inr (r, e) ↦
        let kept = OnSome-some _ _ (take_order-All (Rests s l.price) id l.orders v.resting.0) e in
        rw (here, e)
          (record {
            sorted = keep_level-IsSorted s l r.1 ls v.sorted.0 v.sorted.1;
            none_empty = keep_level-NoneEmpty l r.1 ls v.none_empty.1;
            resting =
                keep_level-All (λ m. All (Rests s m.price) m.orders) l r.1 ls kept.1 v.resting.1;
          })
  ]
  | inr other ↦ elim (Option-cases (take_at id p ls)) [
    | inl e ↦ rw (other, e) tt
    | inr (r, e) ↦
        let kept = OnSome-some _ _ (take_at-SideIsValid s id p ls (tail-SideIsValid s l ls v)) e in
        let behind =
          OnSome-some _ _ (take_at-AllPrices (λ q. before s l.price q ≡ true) id p ls v.sorted.0)
            e in
        rw (other, e)
          (record {
            sorted = (behind, kept.sorted);
            none_empty = (v.none_empty.0, kept.none_empty);
            resting = (v.resting.0, kept.resting);
          })
  ]
]

cancel_stop_order-IsValid :
    (id : ℕ) (b : Book) → IsValid b → OnSome (λ r. IsValid r.0) (cancel_stop_order id b)
unfolding cancel_stop_order
cancel_stop_order-IsValid id b v = elim (Option-cases (take_order id b.stop_orders)) [
  | inl e ↦ rw e tt
  | inr (r, e) ↦
      let kept = OnSome-some _ _ (take_order-All IsParked id b.stop_orders v.stops) e in
      rw e (record { bids = v.bids; asks = v.asks; stops = kept.1 })
]

set_levels-IsValid :
    (s : Side) (ls : Levels) (index : _) (b : Book)
    → SideIsValid s ls
    → IsValid b
    → IsValid (record (set_levels s ls b) { order_index = index })
set_levels-IsValid buy ls index b h v = record { bids = h; asks = v.asks; stops = v.stops }
set_levels-IsValid sell ls index b h v = record { bids = v.bids; asks = h; stops = v.stops }

levels_of-SideIsValid : (s : Side) (b : Book) → IsValid b → SideIsValid s (levels_of s b)
levels_of-SideIsValid buy b v = v.bids
levels_of-SideIsValid sell b v = v.asks

cancel_resting-IsValid :
    (id : ℕ) (b : Book) → IsValid b → OnSome (λ r. IsValid r.0) (cancel_resting id b)
unfolding cancel_resting
cancel_resting-IsValid id b v = elim (Option-cases (index_find id b.order_index)) [
  | inl e ↦ rw e tt
  | inr ((s, p), e) ↦ elim (Option-cases (take_at id p (levels_of s b))) [
    | inl none_there ↦ rw (e, none_there) tt
    | inr (r, found) ↦
        rw (e, found)
          (set_levels-IsValid s r.1 _ b
            (OnSome-some _ _
              (take_at-SideIsValid s id p (levels_of s b) (levels_of-SideIsValid s b v)) found)
            v)
  ]
]

cancel_order-OnSome :
    (id : ℕ) (b : Book) → IsValid b → OnSome (λ r. IsValid r.0) (cancel_order id b)
unfolding cancel_order
cancel_order-OnSome id b v = elim (Option-cases (cancel_stop_order id b)) [
  | inl e ↦ rw e (cancel_resting-IsValid id b v)
  | inr (r, e) ↦ rw e (OnSome-some _ _ (cancel_stop_order-IsValid id b v) e)
]

-- A cancellation that succeeds keeps a valid book valid.
pub cancel_order-IsValid :
    (id : ℕ) (b : Book) {b' : Book} {rpt : ExecutionReport}
    → IsValid b
    → cancel_order id b ≡ some (b', rpt)
    → IsValid b'
cancel_order-IsValid id b v e = OnSome-some _ _ (cancel_order-OnSome id b v) e
