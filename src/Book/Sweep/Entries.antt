-- ===== src/Book/Sweep/Entries.antt =====
-- The loops of src/common/Book.cpp that trade an order against the levels of a side keep the hash
-- table `orderIndex_` exact for that side, and touch no other entry.
use eu_nex.Common.{
  ℕ, ◌<◌, ◌≡◌, refl, ◌≢◌, ◌∙◌, Bool, true, List, [], ◌∷◌, none, arith, All, All-mono, All-both,
}
use eu_nex.Common.Int.{ℤ}
use eu_nex.Types.{Side, Order}
use eu_nex.Book.Levels.{Levels, before, index_find}
use eu_nex.Book.Levels.Sides.{AllPrices, IsSorted, keep_level-All}
use eu_nex.Book.Levels.Index.{
  index_find-erase_ne, index_erase-KeysBelow, KeysBelow, Mapped, Indexed, IsRising, AllRising,
  Without, AllWithout, AllWithout-behind, AllWithout-other, AllWithout-none, Without-elsewhere,
  before-ne,
}
use eu_nex.Book.State.{Output}
use eu_nex.Book.Sweep.{Fill, after_trade, resting_after, sweep_orders, sweep_levels}
use eu_nex.Book.Sweep.Sides.{sweep_orders-All}

module _ (emit : ℤ → Fill → Order → List Output) where
  -- An entry for another order stays.
  sweep_orders-index_find :
      (k : ℕ) (price : ℤ) (f : Fill) (os : List Order)
      → Without k os
      → index_find k (sweep_orders emit price f os).0.order_index ≡ index_find k f.order_index
  unfolding sweep_orders after_trade
  sweep_orders-index_find k price f [] h = refl
  sweep_orders-index_find k price f (r ∷ rs) h = ground (
    arith,
    index_find-erase_ne k r.order_id f.order_index h.0,
    sweep_orders-index_find k price (after_trade price f r) rs h.1,
  )

  sweep_orders-KeysBelow :
      (n : ℕ) (price : ℤ) (f : Fill) (os : List Order)
      → KeysBelow n f.order_index
      → KeysBelow n (sweep_orders emit price f os).0.order_index
  unfolding sweep_orders after_trade
  sweep_orders-KeysBelow n price f [] h = h
  sweep_orders-KeysBelow n price f (r ∷ rs) h = ground (
    arith,
    index_erase-KeysBelow n r.order_id f.order_index,
    sweep_orders-KeysBelow n price (after_trade price f r) rs,
  )

  sweep_orders-IsRising :
      (price : ℤ) (f : Fill) (os : List Order)
      → IsRising os
      → IsRising (sweep_orders emit price f os).1
  unfolding sweep_orders resting_after
  sweep_orders-IsRising price f [] h = tt
  sweep_orders-IsRising price f (r ∷ rs) h = ground (
    arith,
    sweep_orders-All emit (λ (o : Order). r.order_id < o.order_id) (λ q o e _. e) price
        (after_trade price f r) rs h.0,
    sweep_orders-IsRising price (after_trade price f r) rs h.1,
  )

  Rising-Without : (k : ℕ) (os : List Order) → All (λ r. k < r.order_id) os → Without k os
  Rising-Without k os = All-mono (λ r. k < r.order_id) (λ o. o.order_id ≢ k) (λ o e. omega arith) os

  -- The orders behind one that trades keep their entries.
  after_trade-Mapped :
      (s : Side) (p price : ℤ) (f : Fill) (r : Order) (rs : List Order)
      → All (λ o. r.order_id < o.order_id) rs
      → All (Mapped s f.order_index p) rs
      → All (Mapped s (after_trade price f r).order_index p) rs
  unfolding after_trade
  after_trade-Mapped s p price f r rs rising mapped =
      All-mono (λ o. (r.order_id < o.order_id) × Mapped s f.order_index p o)
        (Mapped s (after_trade price f r).order_index p)
        (λ o e. ground (arith, index_find-erase_ne o.order_id r.order_id f.order_index)) rs
        (All-both (λ (o : Order). r.order_id < o.order_id) (Mapped s f.order_index p) rs rising
          mapped)

  sweep_orders-Mapped :
      (s : Side) (p price : ℤ) (f : Fill) (os : List Order)
      → IsRising os
      → All (Mapped s f.order_index p) os
      → let (f', os', _) = sweep_orders emit price f os in All (Mapped s f'.order_index p) os'
  unfolding sweep_orders after_trade resting_after
  sweep_orders-Mapped s p price f [] rising mapped = tt
  sweep_orders-Mapped s p price f (r ∷ rs) rising mapped =
      let f1 = after_trade price f r in
      ground (
        arith,
        sweep_orders-Mapped s p price f1 rs rising.1
            (after_trade-Mapped s p price f r rs rising.0 mapped.1),
        sweep_orders-index_find r.order_id price f1 rs (Rising-Without r.order_id rs rising.0),
      )

  module _ (price_at : ℤ → ℤ) (stop : Order → ℤ → Bool) where
    pub sweep_levels-index_find :
        (k : ℕ) (f : Fill) (ls : Levels)
        → AllWithout k ls
        → index_find k (sweep_levels emit price_at stop f ls).0.order_index
          ≡ index_find k f.order_index
    unfolding sweep_levels
    sweep_levels-index_find k f [] h = refl
    sweep_levels-index_find k f (l ∷ ls) h =
        let inner = sweep_orders emit (price_at l.price) f l.orders in
        ground (
          arith,
          sweep_orders-index_find k (price_at l.price) f l.orders h.0,
          sweep_levels-index_find k inner.0 ls h.1,
        )

    pub sweep_levels-KeysBelow :
        (n : ℕ) (f : Fill) (ls : Levels)
        → KeysBelow n f.order_index
        → KeysBelow n (sweep_levels emit price_at stop f ls).0.order_index
    unfolding sweep_levels
    sweep_levels-KeysBelow n f [] h = h
    sweep_levels-KeysBelow n f (l ∷ ls) h =
        let inner = sweep_orders emit (price_at l.price) f l.orders in
        ground (
          arith,
          sweep_orders-KeysBelow n (price_at l.price) f l.orders h,
          sweep_levels-KeysBelow n inner.0 ls,
        )

    pub sweep_levels-AllRising :
        (f : Fill) (ls : Levels) → AllRising ls → AllRising (sweep_levels emit price_at stop f ls).1
    unfolding sweep_levels
    sweep_levels-AllRising f [] h = tt
    sweep_levels-AllRising f (l ∷ ls) h =
        let inner = sweep_orders emit (price_at l.price) f l.orders in
        let rest = sweep_levels-AllRising inner.0 ls h.1 in
        let kept = sweep_orders-IsRising (price_at l.price) f l.orders h.0 in
        ground (arith, rest, keep_level-All (λ m. IsRising m.orders) l inner.1 _ kept rest)

    -- The levels behind one that is swept keep their entries.
    sweep_orders-Indexed :
        (s : Side) (p price : ℤ) (f : Fill) (os : List Order) (ls : Levels)
        → AllPrices (λ q. before s p q ≡ true) ls
        → All (Mapped s f.order_index p) os
        → Indexed s f.order_index ls
        → Indexed s (sweep_orders emit price f os).0.order_index ls
    sweep_orders-Indexed s p price f os [] behind mapped i = tt
    sweep_orders-Indexed s p price f os (l ∷ ls) behind mapped i = (
      All-mono (Mapped s f.order_index l.price)
          (Mapped s (sweep_orders emit price f os).0.order_index l.price)
          (λ o there.
            sweep_orders-index_find o.order_id price f os (
              Without-elsewhere s p o.order_id f.order_index os
                (λ e. before-ne s p l.price behind.0 (ground arith)) mapped)
            ∙ there)
          l.orders i.0,
      sweep_orders-Indexed s p price f os ls behind.1 mapped i.1,
    )

    -- The orders that a sweep leaves at a level keep their entries through the levels behind it.
    sweep_levels-Mapped :
        (s : Side) (p : ℤ) (f : Fill) (os : List Order) (ls : Levels)
        → AllPrices (λ q. before s p q ≡ true) ls
        → Indexed s f.order_index ls
        → All (Mapped s f.order_index p) os
        → All (Mapped s (sweep_levels emit price_at stop f ls).0.order_index p) os
    sweep_levels-Mapped s p f os ls behind i =
        All-mono (Mapped s f.order_index p)
          (Mapped s (sweep_levels emit price_at stop f ls).0.order_index p)
          (λ o there.
            sweep_levels-index_find o.order_id f ls
              (AllWithout-behind s p o.order_id f.order_index ls there behind i)
            ∙ there)
          os

    -- The side that is swept stays indexed.
    pub sweep_levels-Indexed :
        (s : Side) (f : Fill) (ls : Levels)
        → IsSorted s ls
        → AllRising ls
        → Indexed s f.order_index ls
        → let (f', ls', _) = sweep_levels emit price_at stop f ls in Indexed s f'.order_index ls'
    unfolding sweep_levels
    sweep_levels-Indexed s f [] sorted rising i = tt
    sweep_levels-Indexed s f (l ∷ ls) sorted rising i =
        let inner = sweep_orders emit (price_at l.price) f l.orders in
        let behind =
          sweep_orders-Indexed s l.price (price_at l.price) f l.orders ls sorted.0 i.0 i.1 in
        let rest = sweep_levels-Indexed s inner.0 ls sorted.1 rising.1 behind in
        let kept =
          sweep_levels-Mapped s l.price inner.0 inner.1 ls sorted.0 behind
            (sweep_orders-Mapped s l.price (price_at l.price) f l.orders rising.0 i.0) in
        let m = (sweep_levels emit price_at stop inner.0 ls).0.order_index in
        ground (
          arith,
          rest,
          keep_level-All (λ n. All (Mapped s m n.price) n.orders) l inner.1 _ kept rest,
        )

    -- So does the other side.
    pub sweep_levels-other :
        (s s' : Side) (f : Fill) (ls others : Levels)
        → s' ≢ s
        → Indexed s f.order_index ls
        → Indexed s' f.order_index others
        → Indexed s' (sweep_levels emit price_at stop f ls).0.order_index others
    sweep_levels-other s s' f ls [] ne i j = tt
    sweep_levels-other s s' f ls (l ∷ others) ne i j = (
      All-mono (Mapped s' f.order_index l.price)
          (Mapped s' (sweep_levels emit price_at stop f ls).0.order_index l.price)
          (λ o there.
            sweep_levels-index_find o.order_id f ls
              (AllWithout-other s s' l.price o.order_id f.order_index ls ne there i)
            ∙ there)
          l.orders j.0,
      sweep_levels-other s s' f ls others ne i j.1,
    )

    -- What the table does not hold, it does not get.
    pub sweep_levels-none :
        (s : Side) (k : ℕ) (f : Fill) (ls : Levels)
        → Indexed s f.order_index ls
        → index_find k f.order_index ≡ none
        → index_find k (sweep_levels emit price_at stop f ls).0.order_index ≡ none
    sweep_levels-none s k f ls i h =
        sweep_levels-index_find k f ls (AllWithout-none s k f.order_index ls h i) ∙ h
