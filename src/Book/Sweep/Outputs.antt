-- ===== src/Book/Sweep/Outputs.antt =====
-- What holds of the callbacks of each round of the loops of src/common/Book.cpp that trade an order
-- against price levels holds of all their callbacks.
use eu_nex.Common.{
  ℕ, ◌+◌, ◌-◌, ◌≡◌, refl, ◌∙◌, subst, sym, Bool, false, List, [], ◌∷◌, arith, All, All-append, ◌==◌,
  Bool-cases, inl, inr,
}
use eu_nex.Common.Int.{ℤ}
use eu_nex.Types.{Order, Trade}
use eu_nex.Book.Levels.{Level, Levels, keep_level}
use eu_nex.Book.State.{Output, traded, reported}
use eu_nex.Book.Sweep.{Fill, traded_qty, reduce, after_trade, sweep_orders, sweep_levels}
use eu_nex.Book.Sweep.Quantities.{
  orders_qty, reachable_qty, sweep_orders-resting_qty, sweep_orders-incoming_qty, sweep_orders-stop,
}

-- A property of the trades among the outputs.
abbrev pub OfTrade : (Trade → Type 0) → Output → Type 0
OfTrade P (traded t) = P t
OfTrade P (reported r) = Unit

pub reachable_qty-keep_level :
    (t : ℤ → Bool) (l : Level) (os : List Order) (ls : Levels)
    → t l.price ≡ false
    → reachable_qty t (keep_level l os ls) ≡ orders_qty os + reachable_qty t ls
unfolding reachable_qty
reachable_qty-keep_level t l [] ls h = omega arith
reachable_qty-keep_level t l (o ∷ os) ls h = ground arith

module _ (emit : ℤ → Fill → Order → List Output) (stop : Order → ℤ → Bool)
    (stop-reduce : (q : ℕ) (o : Order) → stop (reduce q o) ≡ stop o) where
  -- `I` is what stays true of the incoming order.
  module _ (Q : Output → Type 0) (I : Order → Type 0)
      (I-reduce : (q : ℕ) (o : Order) → I o → I (reduce q o)) where
    sweep_orders-All_outputs :
        (p price : ℤ) (f : Fill) (os : List Order)
        → ((g : Fill) (r : Order)
            → I g.incoming
            → stop g.incoming p ≡ false
            → All Q (emit price g r))
        → I f.incoming
        → stop f.incoming p ≡ false
        → All Q (sweep_orders emit price f os).2
    unfolding sweep_orders after_trade
    sweep_orders-All_outputs p price f [] each keeps go = tt
    sweep_orders-All_outputs p price f (r ∷ rs) each keeps go =
        let f1 = after_trade price f r in
        let traded_now = traded_qty f.incoming r in
        let same = stop-reduce traded_now f.incoming in
        let rest =
          sweep_orders-All_outputs p price f1 rs each (I-reduce traded_now f.incoming keeps)
            (subst (λ (t : ℤ → Bool). t p ≡ false) (sym same) go) in
        ground (
          arith,
          All-append Q (emit price f r) (sweep_orders emit price f1 rs).2 (each f r keeps go) rest,
        )

    sweep_orders-keeps :
        (price : ℤ) (f : Fill) (os : List Order)
        → I f.incoming
        → I (sweep_orders emit price f os).0.incoming
    unfolding sweep_orders after_trade
    sweep_orders-keeps price f [] keeps = keeps
    sweep_orders-keeps price f (r ∷ rs) keeps =
        let f1 = after_trade price f r in
        let rest =
          sweep_orders-keeps price f1 rs (I-reduce (traded_qty f.incoming r) f.incoming keeps) in
        elim (Bool-cases (f.incoming.remaining_qty == 0)) [
          | inl full ↦ rw full keeps
          | inr more ↦ rw more rest
        ]

    pub sweep_levels-All_outputs :
        (price_at : ℤ → ℤ)
        → ((p : ℤ) (g : Fill) (r : Order)
            → I g.incoming
            → stop g.incoming p ≡ false
            → All Q (emit (price_at p) g r))
        → (f : Fill) (ls : Levels) → I f.incoming
        → All Q (sweep_levels emit price_at stop f ls).2
    unfolding sweep_levels
    sweep_levels-All_outputs price_at each f [] keeps = tt
    sweep_levels-All_outputs price_at each f (l ∷ ls) keeps =
        elim (Bool-cases (stop f.incoming l.price)) [
          | inl e ↦ ground arith
          | inr go ↦
              let inner = sweep_orders emit (price_at l.price) f l.orders in
              let first =
                sweep_orders-All_outputs l.price (price_at l.price) f l.orders (each l.price) keeps
                  go in
              let rest =
                sweep_levels-All_outputs price_at each inner.0 ls
                  (sweep_orders-keeps (price_at l.price) f l.orders keeps) in
              ground (
                arith,
                All-append Q inner.2 (sweep_levels emit price_at stop inner.0 ls).2 first rest,
              )
        ]

  sweep_levels-reachable :
      (price_at : ℤ → ℤ) (t : ℤ → Bool) (f : Fill) (ls : Levels)
      → stop f.incoming ≡ t
      → reachable_qty t (sweep_levels emit price_at stop f ls).1
        ≡ reachable_qty t ls - f.incoming.remaining_qty
  unfolding sweep_levels reachable_qty
  sweep_levels-reachable price_at t f [] same = omega arith
  sweep_levels-reachable price_at t f (l ∷ ls) same =
      let inner = sweep_orders emit (price_at l.price) f l.orders in
      let at_l = subst (λ (u : ℤ → Bool). stop f.incoming l.price ≡ u l.price) same refl in
      ground (
        arith,
        reachable_qty-keep_level t l inner.1 (sweep_levels emit price_at stop inner.0 ls).1,
        sweep_orders-incoming_qty emit (price_at l.price) f l.orders,
        sweep_orders-resting_qty emit (price_at l.price) f l.orders,
        sweep_levels-reachable price_at t inner.0 ls
            (sweep_orders-stop emit stop stop-reduce (price_at l.price) f l.orders ∙ same),
      )

  -- What the loop may still reach is what it reached before, less what the order wanted.
  pub sweep_levels-reachable_qty :
      (price_at : ℤ → ℤ) (f : Fill) (ls : Levels)
      → reachable_qty (stop f.incoming) (sweep_levels emit price_at stop f ls).1
        ≡ reachable_qty (stop f.incoming) ls - f.incoming.remaining_qty
  sweep_levels-reachable_qty price_at f ls =
      sweep_levels-reachable price_at (stop f.incoming) f ls refl
