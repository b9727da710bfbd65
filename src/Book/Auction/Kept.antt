-- ===== src/Book/Auction/Kept.antt =====
-- The opening auction (`uncross` of src/common/Book.cpp) keeps the book valid and the table
-- `orderIndex_` exact.
use eu_nex.Common.{
  ℕ, ◌≡◌, true, List, [], ◌∷◌, none, some, arith, All, All-mono, Bool-cases, inl, inr,
}
use eu_nex.Common.Int.{ℤ, leb_ℤ}
use eu_nex.Types.{sell, Order}
use eu_nex.Book.Levels.{Levels, Level, before, index_find}
use eu_nex.Book.Levels.Sides.{
  Rests, AllPrices, IsSorted, NoneEmpty, SideIsValid, keep_level-All, keep_level-IsSorted,
  keep_level-NoneEmpty,
}
use eu_nex.Book.Levels.Index.{
  Mapped, Indexed, IsRising, AllRising, AllWithout, Without-elsewhere, AllWithout-behind, before-ne,
}
use eu_nex.Book.State.{Clock, Book}
use eu_nex.Book.Auction.{cross_orders, cross_levels}
use eu_nex.Book.Auction.Bids.{BidsFine}
use eu_nex.Book.Auction.Asks.{
  Ready, cross_orders-BidsFine, cross_orders-sells, cross_orders-none, cross_orders-All,
  cross_orders-IsRising, cross_orders-Mapped,
}
use eu_nex.Book.Validity.{IsValid}
use eu_nex.Book.Indexed.{IsIndexed}

-- The asks that are still to be crossed.
pub record ReadyLevels (n : ℕ) (b : Book) (ls : Levels) : Type 0 where
  fine : BidsFine n b
  sorted : IsSorted sell ls
  rising : AllRising ls
  indexed : Indexed sell b.order_index ls

module _ (clk : Clock) (iop : ℤ) where
  first-Ready :
      {n : ℕ} (b : Book) (l : Level) (ls : Levels)
      → ReadyLevels n b (l ∷ ls)
      → Ready n l.price b l.orders
  first-Ready b l ls r = record { fine = r.fine; rising = r.rising.0; mapped = r.indexed.0 }

  -- The levels behind one that is crossed stay known.
  behind-Indexed :
      {n : ℕ} (p : ℤ) (b : Book) (os : List Order) (ls : Levels)
      → Ready n p b os
      → AllPrices (λ q. before sell p q ≡ true) ls
      → Indexed sell b.order_index ls
      → Indexed sell (cross_orders clk iop b os).0.order_index ls
  behind-Indexed p b os [] r behind i = tt
  behind-Indexed p b os (l ∷ ls) r behind i = (
    All-mono (Mapped sell b.order_index l.price)
        (Mapped sell (cross_orders clk iop b os).0.order_index l.price)
        (λ o there.
          cross_orders-sells clk iop p b os o.order_id l.price r
            (Without-elsewhere sell p o.order_id b.order_index os
              (λ e. before-ne sell p l.price behind.0 (ground arith)) r.mapped)
            there)
        l.orders i.0,
    behind-Indexed p b os ls r behind.1 i.1,
  )

  rest_ready :
      {n : ℕ} (b : Book) (l : Level) (ls : Levels)
      → ReadyLevels n b (l ∷ ls)
      → ReadyLevels n (cross_orders clk iop b l.orders).0 ls
  rest_ready b l ls r = record {
    fine = cross_orders-BidsFine clk iop l.price b l.orders (first-Ready b l ls r);
    sorted = r.sorted.1;
    rising = r.rising.1;
    indexed = behind-Indexed l.price b l.orders ls (first-Ready b l ls r) r.sorted.0 r.indexed.1;
  }

  pub cross_levels-BidsFine :
      {n : ℕ} (b : Book) (ls : Levels)
      → ReadyLevels n b ls
      → BidsFine n (cross_levels clk iop b ls).0
  unfolding cross_levels
  cross_levels-BidsFine b [] r = r.fine
  cross_levels-BidsFine b (l ∷ ls) r =
      let b1 = (cross_orders clk iop b l.orders).0 in
      let rest = cross_levels-BidsFine b1 ls (rest_ready b l ls r) in
      elim (Bool-cases (leb_ℤ l.price iop)) [ inl low ↦ rw low rest | inr high ↦ rw high r.fine ]

  cross_levels-sells :
      {n : ℕ} (b : Book) (ls : Levels) (k : ℕ) (q : ℤ)
      → ReadyLevels n b ls
      → AllWithout k ls
      → index_find k b.order_index ≡ some (sell, q)
      → index_find k (cross_levels clk iop b ls).0.order_index ≡ some (sell, q)
  unfolding cross_levels
  cross_levels-sells b [] k q r h there = there
  cross_levels-sells b (l ∷ ls) k q r h there =
      let inner = cross_orders clk iop b l.orders in
      let here =
        cross_orders-sells clk iop l.price b l.orders k q (first-Ready b l ls r) h.0 there in
      let rest = cross_levels-sells inner.0 ls k q (rest_ready b l ls r) h.1 here in
      elim (Bool-cases (leb_ℤ l.price iop)) [ inl low ↦ rw low rest | inr high ↦ rw high there ]

  pub cross_levels-none :
      {n : ℕ} (b : Book) (ls : Levels) (k : ℕ)
      → ReadyLevels n b ls
      → index_find k b.order_index ≡ none
      → index_find k (cross_levels clk iop b ls).0.order_index ≡ none
  unfolding cross_levels
  cross_levels-none b [] k r there = there
  cross_levels-none b (l ∷ ls) k r there =
      let inner = cross_orders clk iop b l.orders in
      let here = cross_orders-none clk iop l.price b l.orders k (first-Ready b l ls r) there in
      let rest = cross_levels-none inner.0 ls k (rest_ready b l ls r) here in
      elim (Bool-cases (leb_ℤ l.price iop)) [ inl low ↦ rw low rest | inr high ↦ rw high there ]

  pub cross_levels-Indexed :
      {n : ℕ} (b : Book) (ls : Levels)
      → ReadyLevels n b ls
      → let (b', ls', out) = cross_levels clk iop b ls in Indexed sell b'.order_index ls'
  unfolding cross_levels
  cross_levels-Indexed b [] r = tt
  cross_levels-Indexed b (l ∷ ls) r =
      let inner = cross_orders clk iop b l.orders in
      let r1 = rest_ready b l ls r in
      let m = (cross_levels clk iop inner.0 ls).0.order_index in
      let rest = cross_levels-Indexed inner.0 ls r1 in
      let left =
        All-mono (Mapped sell inner.0.order_index l.price) (Mapped sell m l.price)
          (λ o there.
            cross_levels-sells inner.0 ls o.order_id l.price r1
              (AllWithout-behind sell l.price o.order_id inner.0.order_index ls there r.sorted.0
                r1.indexed)
              there)
          inner.1 (cross_orders-Mapped clk iop l.price b l.orders (first-Ready b l ls r)) in
      elim (Bool-cases (leb_ℤ l.price iop)) [
        | inl low ↦
            rw low
              (keep_level-All (λ k. All (Mapped sell m k.price) k.orders) l inner.1 _ left rest)
        | inr high ↦ rw high r.indexed
      ]

  -- What holds of every level, whichever of its orders are left, holds of the levels that are left.
  cross_levels-All :
      (P : Level → Type 0)
      → ((b : Book) (l : Level)
          → P l
          → P (record l { orders = (cross_orders clk iop b l.orders).1 }))
      → (b : Book) (ls : Levels) → All P ls
      → All P (cross_levels clk iop b ls).1
  unfolding cross_levels
  cross_levels-All P keeps b [] h = tt
  cross_levels-All P keeps b (l ∷ ls) h =
      let inner = cross_orders clk iop b l.orders in
      let rest = cross_levels-All P keeps inner.0 ls h.1 in
      elim (Bool-cases (leb_ℤ l.price iop)) [
        | inl low ↦ rw low (keep_level-All P l inner.1 _ (keeps b l h.0) rest)
        | inr high ↦ rw high h
      ]

  cross_levels-IsSorted :
      (b : Book) (ls : Levels) → IsSorted sell ls → IsSorted sell (cross_levels clk iop b ls).1
  unfolding cross_levels
  cross_levels-IsSorted b [] h = tt
  cross_levels-IsSorted b (l ∷ ls) h =
      let inner = cross_orders clk iop b l.orders in
      let rest = cross_levels-IsSorted inner.0 ls h.1 in
      let behind =
        cross_levels-All (λ m. before sell l.price m.price ≡ true) (λ _ _ e. e) inner.0 ls h.0 in
      elim (Bool-cases (leb_ℤ l.price iop)) [
        | inl low ↦ rw low (keep_level-IsSorted sell l inner.1 _ behind rest)
        | inr high ↦ rw high h
      ]

  cross_levels-NoneEmpty :
      (b : Book) (ls : Levels) → NoneEmpty ls → NoneEmpty (cross_levels clk iop b ls).1
  unfolding cross_levels
  cross_levels-NoneEmpty b [] h = tt
  cross_levels-NoneEmpty b (l ∷ ls) h =
      let inner = cross_orders clk iop b l.orders in
      let rest = cross_levels-NoneEmpty inner.0 ls h.1 in
      elim (Bool-cases (leb_ℤ l.price iop)) [
        | inl low ↦ rw low (keep_level-NoneEmpty l inner.1 _ rest)
        | inr high ↦ rw high h
      ]

  pub cross_levels-SideIsValid :
      (b : Book) (ls : Levels)
      → SideIsValid sell ls
      → SideIsValid sell (cross_levels clk iop b ls).1
  cross_levels-SideIsValid b ls v = record {
    sorted = cross_levels-IsSorted b ls v.sorted;
    none_empty = cross_levels-NoneEmpty b ls v.none_empty;
    resting =
        cross_levels-All (λ l. All (Rests sell l.price) l.orders)
          (λ b1 l.
            cross_orders-All clk iop (Rests sell l.price)
              (λ o q left le e. (e.0, e.1, omega arith, omega arith, e.4)) b1 l.orders)
          b ls v.resting;
  }

  pub cross_levels-AllRising :
      (b : Book) (ls : Levels) → AllRising ls → AllRising (cross_levels clk iop b ls).1
  cross_levels-AllRising =
      cross_levels-All (λ l. IsRising l.orders) (λ b1 l. cross_orders-IsRising clk iop b1 l.orders)

pub ready_asks : {n : ℕ} (b : Book) → IsValid b → IsIndexed n b → ReadyLevels n b b.asks
ready_asks b v i = record {
  fine = record { valid = v.bids; indexed = i.bids; rising = i.rising_bids; keys = i.keys };
  sorted = v.asks.sorted;
  rising = i.rising_asks;
  indexed = i.asks;
}
