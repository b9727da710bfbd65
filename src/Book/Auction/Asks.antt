-- ===== src/Book/Auction/Asks.antt =====
-- The asks of one level, and of all levels, in the opening auction (`uncross` of
-- src/common/Book.cpp): what stays true of them and of `orderIndex_`.
use eu_nex.Common.{
  ℕ, ◌≤◌, ◌<◌, ◌≡◌, sym, ap, ◌≢◌, subst, List, [], ◌∷◌, none, some, arith, All, All-mono, All-both,
  ◌==◌, Bool-cases, inl, inr,
}
use eu_nex.Common.Int.{ℤ}
use eu_nex.Types.{sell, Order}
use eu_nex.Book.Levels.{index_find}
use eu_nex.Book.Levels.Index.{Mapped, IsRising, Without}
use eu_nex.Book.State.{Clock, Book}
use eu_nex.Book.Sweep.{keep_order}
use eu_nex.Book.Auction.{cross_bids, cross_orders}
use eu_nex.Book.Auction.Bids.{
  BidsFine, cross_ask, cross_bids-incoming, cross_ask-BidsFine, cross_ask-sells, cross_ask-left,
  cross_ask-none,
}

-- The asks of a level, before they are crossed.
pub record Ready (n : ℕ) (p : ℤ) (b : Book) (os : List Order) : Type 0 where
  pub fine : BidsFine n b
  pub rising : IsRising os
  pub mapped : All (Mapped sell b.order_index p) os

newer-Without : (k : ℕ) (os : List Order) → All (λ r. k < r.order_id) os → Without k os
newer-Without k = All-mono (λ r. k < r.order_id) (λ o. o.order_id ≢ k) (λ o e. omega arith)

keep_order-All :
    (P : Order → Type 0) (o : Order) (os : List Order)
    → (o.remaining_qty ≢ 0 → P o)
    → All P os
    → All P (keep_order o os)
keep_order-All P o os h rest = elim (Bool-cases (o.remaining_qty == 0)) [
  | inl done ↦ rw done rest
  | inr more ↦ rw more (h (ground arith), rest)
]

keep_order-IsRising :
    (o : Order) (os : List Order)
    → All (λ r. o.order_id < r.order_id) os
    → IsRising os
    → IsRising (keep_order o os)
keep_order-IsRising o os h rest = ground arith

module _ (clk : Clock) (iop : ℤ) where
  Ready-step :
      {n : ℕ} (p : ℤ) (b : Book) (ask : Order) (os : List Order)
      → Ready n p b (ask ∷ os)
      → Ready n p (cross_ask clk iop b ask) os
  Ready-step p b ask os r = record {
    fine = cross_ask-BidsFine clk iop b ask p r.mapped.0 r.fine;
    rising = r.rising.1;
    mapped =
        All-mono (λ o. (ask.order_id < o.order_id) × Mapped sell b.order_index p o)
          (Mapped sell (cross_ask clk iop b ask).order_index p)
          (λ o e. cross_ask-sells clk iop b ask o.order_id p r.fine (omega arith) e.1) os
          (All-both (λ (o : Order). ask.order_id < o.order_id) (Mapped sell b.order_index p) os
            r.rising.0 r.mapped.1);
  }

  pub cross_orders-BidsFine :
      {n : ℕ} (p : ℤ) (b : Book) (os : List Order)
      → Ready n p b os
      → BidsFine n (cross_orders clk iop b os).0
  unfolding cross_orders
  cross_orders-BidsFine p b [] r = r.fine
  cross_orders-BidsFine p b (ask ∷ os) r =
      cross_orders-BidsFine p (cross_ask clk iop b ask) os (Ready-step p b ask os r)

  pub cross_orders-sells :
      {n : ℕ} (p : ℤ) (b : Book) (os : List Order) (k : ℕ) (q : ℤ)
      → Ready n p b os
      → Without k os
      → index_find k b.order_index ≡ some (sell, q)
      → index_find k (cross_orders clk iop b os).0.order_index ≡ some (sell, q)
  unfolding cross_orders
  cross_orders-sells p b [] k q r h there = there
  cross_orders-sells p b (ask ∷ os) k q r h there =
      cross_orders-sells p (cross_ask clk iop b ask) os k q (Ready-step p b ask os r) h.1
        (cross_ask-sells clk iop b ask k q r.fine h.0 there)

  pub cross_orders-none :
      {n : ℕ} (p : ℤ) (b : Book) (os : List Order) (k : ℕ)
      → Ready n p b os
      → index_find k b.order_index ≡ none
      → index_find k (cross_orders clk iop b os).0.order_index ≡ none
  unfolding cross_orders
  cross_orders-none p b [] k r there = there
  cross_orders-none p b (ask ∷ os) k r there =
      cross_orders-none p (cross_ask clk iop b ask) os k (Ready-step p b ask os r)
        (cross_ask-none clk iop b ask k r.fine there)

  -- What holds of the asks, and of an ask that is left with less, holds of the asks that are left.
  pub cross_orders-All :
      (P : Order → Type 0)
      → ((o : Order) (q : ℕ)
          → q ≢ 0
          → q ≤ o.remaining_qty
          → P o
          → P (record o { remaining_qty = q }))
      → (b : Book) (os : List Order) → All P os
      → All P (cross_orders clk iop b os).1
  unfolding cross_orders
  cross_orders-All P keeps b [] h = tt
  cross_orders-All P keeps b (ask ∷ os) h =
      let ask1 = (cross_bids clk iop b ask).1 in
      let less = cross_bids-incoming clk iop b ask in
      let rest = cross_orders-All P keeps (cross_ask clk iop b ask) os h.1 in
      keep_order-All P ask1 _
        (λ left. subst P (sym less.0) (keeps ask ask1.remaining_qty left less.1 h.0)) rest

  pub cross_orders-IsRising :
      (b : Book) (os : List Order) → IsRising os → IsRising (cross_orders clk iop b os).1
  unfolding cross_orders
  cross_orders-IsRising b [] h = tt
  cross_orders-IsRising b (ask ∷ os) h =
      let ask1 = (cross_bids clk iop b ask).1 in
      let less = cross_bids-incoming clk iop b ask in
      let same = ap (λ (o : Order). o.order_id) less.0 in
      let b1 = cross_ask clk iop b ask in
      let behind =
        cross_orders-All (λ (o : Order). ask.order_id < o.order_id) (λ o q _ _ e. e) b1 os h.0 in
      let rest = cross_orders-IsRising b1 os h.1 in
      keep_order-IsRising ask1 _
        (subst (λ k. All (λ r. k < r.order_id) (cross_orders clk iop b1 os).1) (sym same) behind)
        rest

  pub cross_orders-Mapped :
      {n : ℕ} (p : ℤ) (b : Book) (os : List Order)
      → Ready n p b os
      → let (b', os', out) = cross_orders clk iop b os in All (Mapped sell b'.order_index p) os'
  unfolding cross_orders
  cross_orders-Mapped p b [] r = tt
  cross_orders-Mapped p b (ask ∷ os) r =
      let ask1 = (cross_bids clk iop b ask).1 in
      let b1 = cross_ask clk iop b ask in
      let r1 = Ready-step p b ask os r in
      let same = ap (λ (o : Order). o.order_id) (cross_bids-incoming clk iop b ask).0 in
      let rest = cross_orders-Mapped p b1 os r1 in
      let newer = newer-Without ask.order_id os r.rising.0 in
      keep_order-All (Mapped sell (cross_orders clk iop b1 os).0.order_index p) ask1 _
        (λ left.
          subst (λ k. index_find k (cross_orders clk iop b1 os).0.order_index ≡ some (sell, p))
            (sym same)
            (cross_orders-sells p b1 os ask.order_id p r1 newer
              (cross_ask-left clk iop b ask p r.fine left r.mapped.0)))
        rest
