-- ===== src/Book/Levels/Sides.antt =====
-- What holds of one side of the book (`BidMap` and `AskMap` of src/common/Book.hpp): prices in the
-- order of the map, each once, no empty level, and at each level orders of its side and price that
-- still want something.
use eu_nex.Common.{
  ◌≤◌, ◌<◌, ◌≡◌, refl, true, false, List, [], ◌∷◌, arith, All, All-append, All-mono, is_empty,
  u64_mod, Bool-cases, inl, inr,
}
use eu_nex.Common.Int.{ℤ, eq_ℤ, eq_ℤ→eq}
use eu_nex.Types.{Side, buy, sell, Order}
use eu_nex.Book.Levels.{Level, Levels, before, push_order, keep_level}

abbrev pub Rests : Side → ℤ → Order → Type 0
Rests s p o =
    (o.side ≡ s)
    × (o.price ≡ p)
    × (0 < o.remaining_qty)
    × (o.remaining_qty ≤ o.quantity)
    × (o.quantity < u64_mod)

-- A property of the prices of all levels.
abbrev pub AllPrices : (ℤ → Type 0) → Levels → Type 0
AllPrices P = All (λ l. P l.price)

-- A property of all orders, each at the price of its level.
abbrev pub AllOrders : (ℤ → Order → Type 0) → Levels → Type 0
AllOrders P = All (λ l. All (P l.price) l.orders)

abbrev pub IsSorted : Side → Levels → Type 0
IsSorted s [] = Unit
IsSorted s (l ∷ ls) = AllPrices (λ p. before s l.price p ≡ true) ls × IsSorted s ls

abbrev pub NoneEmpty : Levels → Type 0
NoneEmpty = All (λ l. is_empty l.orders ≡ false)

pub record SideIsValid (s : Side) (ls : Levels) : Type 0 where
  pub sorted : IsSorted s ls
  pub none_empty : NoneEmpty ls
  pub resting : AllOrders (Rests s) ls

pub before_trans :
    (s : Side) (p q r : ℤ) → before s p q ≡ true → before s q r ≡ true → before s p r ≡ true
before_trans buy p q r h k = ground arith
before_trans sell p q r h k = ground arith

pub before-total :
    (s : Side) (p q : ℤ) → eq_ℤ p q ≡ false → before s p q ≡ false → before s q p ≡ true
before-total buy p q h k = ground arith
before-total sell p q h k = ground arith

-- `push_order` adds one price.
pub push_order-AllPrices :
    (P : ℤ → Type 0) (s : Side) (o : Order) (ls : Levels)
    → P o.price
    → AllPrices P ls
    → AllPrices P (push_order s o ls)
unfolding push_order
push_order-AllPrices P s o [] h k = (h, tt)
push_order-AllPrices P s o (l ∷ ls) h k = ground (arith, push_order-AllPrices P s o ls h k.1)

pub push_order-AllOrders :
    (P : ℤ → Order → Type 0) (s : Side) (o : Order) (ls : Levels)
    → P o.price o
    → AllOrders P ls
    → AllOrders P (push_order s o ls)
unfolding push_order
push_order-AllOrders P s o [] h k = ((h, tt), tt)
push_order-AllOrders P s o (l ∷ ls) h k = elim (Bool-cases (eq_ℤ o.price l.price)) [
  | inl same ↦ rw same (
    All-append (P l.price) l.orders (o ∷ []) k.0 (rw (← eq_ℤ→eq o.price l.price same) h, tt),
    k.1,
  )
  | inr other ↦ rw other (ground (arith, push_order-AllOrders P s o ls h k.1))
]

pub push_order-NoneEmpty :
    (s : Side) (o : Order) (ls : Levels) → NoneEmpty ls → NoneEmpty (push_order s o ls)
unfolding push_order
push_order-NoneEmpty s o [] k = (refl, tt)
push_order-NoneEmpty s o (l ∷ ls) k = ground (arith, push_order-NoneEmpty s o ls k.1)

-- What stands behind a level stands behind any price before it.
pub before_all :
    (s : Side) (p q : ℤ) (ls : Levels)
    → before s p q ≡ true
    → AllPrices (λ r. before s q r ≡ true) ls
    → AllPrices (λ r. before s p r ≡ true) ls
before_all s p q ls h =
    All-mono (λ l. before s q l.price ≡ true) (λ l. before s p l.price ≡ true)
      (λ l. before_trans s p q l.price h) ls

pub push_order-IsSorted :
    (s : Side) (o : Order) (ls : Levels) → IsSorted s ls → IsSorted s (push_order s o ls)
unfolding push_order
push_order-IsSorted s o [] k = (tt, tt)
push_order-IsSorted s o (l ∷ ls) k = elim (Bool-cases (eq_ℤ o.price l.price)) [
  | inl same ↦ rw same k
  | inr other ↦ elim (Bool-cases (before s o.price l.price)) [
    | inl first ↦ rw (other, first) ((first, before_all s o.price l.price ls first k.0), k)
    | inr later ↦
        rw (other, later)
          (
            push_order-AllPrices (λ p. before s l.price p ≡ true) s o ls
                (before-total s o.price l.price other later) k.0,
            push_order-IsSorted s o ls k.1,
          )
  ]
]

pub keep_level-All {ℓ} :
    (P : Level → Type ℓ) (l : Level) (os : List Order) (ls : Levels)
    → P (record l { orders = os })
    → All P ls
    → All P (keep_level l os ls)
keep_level-All P l [] ls h k = k
keep_level-All P l (o ∷ os) ls h k = (h, k)

pub keep_level-IsSorted :
    (s : Side) (l : Level) (os : List Order) (ls : Levels)
    → AllPrices (λ p. before s l.price p ≡ true) ls
    → IsSorted s ls
    → IsSorted s (keep_level l os ls)
keep_level-IsSorted s l [] ls h k = k
keep_level-IsSorted s l (o ∷ os) ls h k = (h, k)

pub keep_level-NoneEmpty :
    (l : Level) (os : List Order) (ls : Levels) → NoneEmpty ls → NoneEmpty (keep_level l os ls)
keep_level-NoneEmpty l [] ls k = k
keep_level-NoneEmpty l (o ∷ os) ls k = (refl, k)

pub push_order-SideIsValid :
    (s : Side) (o : Order) (ls : Levels)
    → Rests s o.price o
    → SideIsValid s ls
    → SideIsValid s (push_order s o ls)
push_order-SideIsValid s o ls h v = record {
  sorted = push_order-IsSorted s o ls v.sorted;
  none_empty = push_order-NoneEmpty s o ls v.none_empty;
  resting = push_order-AllOrders (Rests s) s o ls h v.resting;
}
