-- ===== src/Book/Sweep/Quantities.antt =====
-- Quantities under the loops of src/common/Book.cpp that trade an order against price levels.
use eu_nex.Common.{
  ℕ, ◌+◌, ◌-◌, ◌≡◌, refl, ◌≢◌, Bool, List, [], ◌∷◌, arith, if◌then◌else◌, sum_by, sum_by-append,
}
use eu_nex.Common.Int.{ℤ}
use eu_nex.Types.{Order}
use eu_nex.Book.Levels.{Level, Levels, keep_level}
use eu_nex.Book.State.{Output, traded, reported}
use eu_nex.Book.Sweep.{
  Fill, traded_qty, reduce, after_trade, resting_after, keep_order, sweep_orders, sweep_levels,
}

-- The quantity that rests in a list of orders, and in all levels.
abbrev pub orders_qty : List Order → ℕ
orders_qty = sum_by (λ o. o.remaining_qty)

abbrev pub levels_qty : Levels → ℕ
levels_qty = sum_by (λ l. orders_qty l.orders)

-- The quantity of the trades among the outputs.
abbrev pub output_qty : Output → ℕ
output_qty (traded t) = t.quantity
output_qty (reported r) = 0

abbrev pub traded_total : List Output → ℕ
traded_total = sum_by output_qty

-- The quantity that the loop may reach: that of the levels before the first that it stops at.
unfoldable pub reachable_qty : (ℤ → Bool) → Levels → ℕ
reachable_qty stop [] = 0
reachable_qty stop (l ∷ ls) =
    if stop l.price then 0 else orders_qty l.orders + reachable_qty stop ls

-- The levels from the first that the loop stops at.
unfoldable pub beyond : (ℤ → Bool) → Levels → Levels
beyond stop [] = []
beyond stop (l ∷ ls) = if stop l.price then l ∷ ls else beyond stop ls

pub orders_qty-keep_order :
    (o : Order) (os : List Order) → orders_qty (keep_order o os) ≡ o.remaining_qty + orders_qty os
orders_qty-keep_order o os = ground arith

pub levels_qty-keep_level :
    (l : Level) (os : List Order) (ls : Levels)
    → levels_qty (keep_level l os ls) ≡ orders_qty os + levels_qty ls
levels_qty-keep_level l [] ls = omega arith
levels_qty-keep_level l (o ∷ os) ls = omega arith

module _ (emit : ℤ → Fill → Order → List Output) where
  pub sweep_orders-incoming_qty :
      (price : ℤ) (f : Fill) (os : List Order)
      → (sweep_orders emit price f os).0.incoming.remaining_qty
        ≡ f.incoming.remaining_qty - orders_qty os
  unfolding sweep_orders after_trade
  sweep_orders-incoming_qty price f [] = omega arith
  sweep_orders-incoming_qty price f (r ∷ rs) =
      ground (arith, sweep_orders-incoming_qty price (after_trade price f r) rs)

  pub sweep_orders-resting_qty :
      (price : ℤ) (f : Fill) (os : List Order)
      → orders_qty (sweep_orders emit price f os).1 ≡ orders_qty os - f.incoming.remaining_qty
  unfolding sweep_orders after_trade resting_after
  sweep_orders-resting_qty price f [] = omega arith
  sweep_orders-resting_qty price f (r ∷ rs) =
      ground (arith, sweep_orders-resting_qty price (after_trade price f r) rs)

  -- Of the incoming order only the remaining quantity changes.
  sweep_orders-incoming :
      (price : ℤ) (f : Fill) (os : List Order)
      → let o = (sweep_orders emit price f os).0.incoming in
        o ≡ record f.incoming { remaining_qty = o.remaining_qty }
  unfolding sweep_orders after_trade
  sweep_orders-incoming price f [] = refl
  sweep_orders-incoming price f (r ∷ rs) =
      ground (arith, sweep_orders-incoming price (after_trade price f r) rs)

  -- An order that is not filled has emptied the level.
  sweep_orders-emptied :
      (price : ℤ) (f : Fill) (os : List Order)
      → (sweep_orders emit price f os).0.incoming.remaining_qty ≢ 0
      → (sweep_orders emit price f os).1 ≡ []
  unfolding sweep_orders after_trade resting_after
  sweep_orders-emptied price f [] h = refl
  sweep_orders-emptied price f (r ∷ rs) h = ground (
    arith,
    sweep_orders-incoming_qty price (after_trade price f r) rs,
    sweep_orders-emptied price (after_trade price f r) rs,
  )

  -- What the callbacks say of quantities is what was traded.
  abbrev EmitsTraded : Type 0
  EmitsTraded =
      (price : ℤ) (f : Fill) (r : Order) → traded_total (emit price f r) ≡ traded_qty f.incoming r

  sweep_orders-traded_total :
      EmitsTraded
      → (price : ℤ) (f : Fill) (os : List Order)
      → traded_total (sweep_orders emit price f os).2
          + (sweep_orders emit price f os).0.incoming.remaining_qty
        ≡ f.incoming.remaining_qty
  unfolding sweep_orders after_trade
  sweep_orders-traded_total e price f [] = omega arith
  sweep_orders-traded_total e price f (r ∷ rs) = ground (
    arith,
    e price f r,
    sum_by-append output_qty (emit price f r)
        (sweep_orders emit price (after_trade price f r) rs).2,
    sweep_orders-traded_total e price (after_trade price f r) rs,
  )

  module _ (stop : Order → ℤ → Bool)
      (stop-reduce : (q : ℕ) (o : Order) → stop (reduce q o) ≡ stop o) where
    pub sweep_orders-stop :
        (price : ℤ) (f : Fill) (os : List Order)
        → stop (sweep_orders emit price f os).0.incoming ≡ stop f.incoming
    unfolding sweep_orders after_trade
    sweep_orders-stop price f [] = refl
    sweep_orders-stop price f (r ∷ rs) = ground (
      arith,
      stop-reduce (traded_qty f.incoming r) f.incoming,
      sweep_orders-stop price (after_trade price f r) rs,
    )

    module _ (price_at : ℤ → ℤ) where
      pub sweep_levels-incoming :
          (f : Fill) (ls : Levels)
          → let o = (sweep_levels emit price_at stop f ls).0.incoming in
            o ≡ record f.incoming { remaining_qty = o.remaining_qty }
      unfolding sweep_levels
      sweep_levels-incoming f [] = refl
      sweep_levels-incoming f (l ∷ ls) =
          let inner = sweep_orders emit (price_at l.price) f l.orders in
          ground (
            arith,
            sweep_orders-incoming (price_at l.price) f l.orders,
            sweep_levels-incoming inner.0 ls,
          )

      -- The order trades as much of its quantity as the levels before the first stop hold.
      pub sweep_levels-incoming_qty :
          (f : Fill) (ls : Levels)
          → (sweep_levels emit price_at stop f ls).0.incoming.remaining_qty
            ≡ f.incoming.remaining_qty - reachable_qty (stop f.incoming) ls
      unfolding sweep_levels reachable_qty
      sweep_levels-incoming_qty f [] = omega arith
      sweep_levels-incoming_qty f (l ∷ ls) =
          let inner = sweep_orders emit (price_at l.price) f l.orders in
          ground (
            arith,
            sweep_orders-incoming_qty (price_at l.price) f l.orders,
            sweep_orders-stop (price_at l.price) f l.orders,
            sweep_levels-incoming_qty inner.0 ls,
          )

      -- What leaves the levels is what the order traded.
      pub sweep_levels-levels_qty :
          (f : Fill) (ls : Levels)
          → levels_qty (sweep_levels emit price_at stop f ls).1 + f.incoming.remaining_qty
            ≡ levels_qty ls + (sweep_levels emit price_at stop f ls).0.incoming.remaining_qty
      unfolding sweep_levels
      sweep_levels-levels_qty f [] = omega arith
      sweep_levels-levels_qty f (l ∷ ls) =
          let inner = sweep_orders emit (price_at l.price) f l.orders in
          ground (
            arith,
            sweep_orders-incoming_qty (price_at l.price) f l.orders,
            sweep_orders-resting_qty (price_at l.price) f l.orders,
            levels_qty-keep_level l inner.1 (sweep_levels emit price_at stop inner.0 ls).1,
            sweep_levels-levels_qty inner.0 ls,
          )

      -- An order that is not filled has emptied every level before the first stop.
      pub sweep_levels-emptied :
          (f : Fill) (ls : Levels)
          → (sweep_levels emit price_at stop f ls).0.incoming.remaining_qty ≢ 0
          → (sweep_levels emit price_at stop f ls).1 ≡ beyond (stop f.incoming) ls
      unfolding sweep_levels beyond
      sweep_levels-emptied f [] h = refl
      sweep_levels-emptied f (l ∷ ls) h =
          let inner = sweep_orders emit (price_at l.price) f l.orders in
          ground (
            arith,
            sweep_orders-emptied (price_at l.price) f l.orders,
            sweep_orders-stop (price_at l.price) f l.orders,
            sweep_levels-incoming_qty inner.0 ls,
            sweep_levels-emptied inner.0 ls,
          )

      -- The trades add up to what the order has lost.
      pub sweep_levels-traded_total :
          EmitsTraded
          → (f : Fill) (ls : Levels)
          → traded_total (sweep_levels emit price_at stop f ls).2
              + (sweep_levels emit price_at stop f ls).0.incoming.remaining_qty
            ≡ f.incoming.remaining_qty
      unfolding sweep_levels
      sweep_levels-traded_total e f [] = omega arith
      sweep_levels-traded_total e f (l ∷ ls) =
          let inner = sweep_orders emit (price_at l.price) f l.orders in
          ground (
            arith,
            sum_by-append output_qty inner.2 (sweep_levels emit price_at stop inner.0 ls).2,
            sweep_orders-traded_total e (price_at l.price) f l.orders,
            sweep_levels-traded_total e inner.0 ls,
          )
