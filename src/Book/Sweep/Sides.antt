-- ===== src/Book/Sweep/Sides.antt =====
-- The loops of src/common/Book.cpp that trade an order against the levels of a side leave that
-- side in order.
use eu_nex.Common.{ℕ, ◌-◌, ◌≡◌, ◌≢◌, Bool, true, List, [], ◌∷◌, arith, All}
use eu_nex.Common.Int.{ℤ}
use eu_nex.Types.{Side, Order}
use eu_nex.Book.Levels.{Levels, before}
use eu_nex.Book.Levels.Sides.{
  Rests, AllPrices, AllOrders, IsSorted, NoneEmpty, SideIsValid, keep_level-All,
  keep_level-IsSorted, keep_level-NoneEmpty,
}
use eu_nex.Book.State.{Output}
use eu_nex.Book.Sweep.{
  Fill, traded_qty, reduce, after_trade, resting_after, sweep_orders, sweep_levels,
}

module _ (emit : ℤ → Fill → Order → List Output) where
  module _ (P : Order → Type 0)
      (keeps : (q : ℕ) (o : Order) → P o → o.remaining_qty - q ≢ 0 → P (reduce q o)) where
    pub sweep_orders-All :
        (price : ℤ) (f : Fill) (os : List Order) → All P os → All P (sweep_orders emit price f os).1
    unfolding sweep_orders resting_after
    sweep_orders-All price f [] h = tt
    sweep_orders-All price f (r ∷ rs) h = ground (
      arith,
      keeps (traded_qty f.incoming r) r h.0,
      sweep_orders-All price (after_trade price f r) rs h.1,
    )

  module _ (price_at : ℤ → ℤ) (stop : Order → ℤ → Bool) where
    pub sweep_levels-AllPrices :
        (P : ℤ → Type 0) (f : Fill) (ls : Levels)
        → AllPrices P ls
        → AllPrices P (sweep_levels emit price_at stop f ls).1
    unfolding sweep_levels
    sweep_levels-AllPrices P f [] h = tt
    sweep_levels-AllPrices P f (l ∷ ls) h =
        let inner = sweep_orders emit (price_at l.price) f l.orders in
        let rest = sweep_levels-AllPrices P inner.0 ls h.1 in
        ground (arith, rest, keep_level-All (λ m. P m.price) l inner.1 _ h.0 rest)

    pub sweep_levels-IsSorted :
        (s : Side) (f : Fill) (ls : Levels)
        → IsSorted s ls
        → IsSorted s (sweep_levels emit price_at stop f ls).1
    unfolding sweep_levels
    sweep_levels-IsSorted s f [] h = tt
    sweep_levels-IsSorted s f (l ∷ ls) h =
        let inner = sweep_orders emit (price_at l.price) f l.orders in
        let rest = sweep_levels-IsSorted s inner.0 ls h.1 in
        let behind = sweep_levels-AllPrices (λ p. before s l.price p ≡ true) inner.0 ls h.0 in
        ground (arith, rest, behind, keep_level-IsSorted s l inner.1 _ behind rest)

    pub sweep_levels-NoneEmpty :
        (f : Fill) (ls : Levels) → NoneEmpty ls → NoneEmpty (sweep_levels emit price_at stop f ls).1
    unfolding sweep_levels
    sweep_levels-NoneEmpty f [] h = tt
    sweep_levels-NoneEmpty f (l ∷ ls) h =
        let inner = sweep_orders emit (price_at l.price) f l.orders in
        let rest = sweep_levels-NoneEmpty inner.0 ls h.1 in
        ground (arith, rest, keep_level-NoneEmpty l inner.1 _ rest)

    module _ (P : ℤ → Order → Type 0)
        (keeps : (p : ℤ) (q : ℕ) (o : Order)
          → P p o
          → o.remaining_qty - q ≢ 0
          → P p (reduce q o)) where
      pub sweep_levels-AllOrders :
          (f : Fill) (ls : Levels)
          → AllOrders P ls
          → AllOrders P (sweep_levels emit price_at stop f ls).1
      unfolding sweep_levels
      sweep_levels-AllOrders f [] h = tt
      sweep_levels-AllOrders f (l ∷ ls) h =
          let inner = sweep_orders emit (price_at l.price) f l.orders in
          let rest = sweep_levels-AllOrders inner.0 ls h.1 in
          let kept =
            sweep_orders-All (P l.price) (keeps l.price) (price_at l.price) f l.orders h.0 in
          ground (arith, rest, keep_level-All (λ m. All (P m.price) m.orders) l inner.1 _ kept rest)

    Rests-reduce :
        (s : Side) (p : ℤ) (q : ℕ) (o : Order)
        → Rests s p o
        → o.remaining_qty - q ≢ 0
        → Rests s p (reduce q o)
    Rests-reduce s p q o h k = ground arith

    -- A side of the book stays in order.
    pub sweep_levels-SideIsValid :
        (s : Side) (f : Fill) (ls : Levels)
        → SideIsValid s ls
        → SideIsValid s (sweep_levels emit price_at stop f ls).1
    sweep_levels-SideIsValid s f ls v = record {
      sorted = sweep_levels-IsSorted s f ls v.sorted;
      none_empty = sweep_levels-NoneEmpty f ls v.none_empty;
      resting = sweep_levels-AllOrders (Rests s) (Rests-reduce s) f ls v.resting;
    }
