-- ===== src/Book/Queue/Flat.antt =====
-- The queue that the levels of one side (src/common/Book.hpp) stand for.
use eu_nex.Common.{
  ◌≡◌, refl, sym, ap, ◌∙◌, true, false, List, [], ◌∷◌, ◌++◌, All, All-mono, All-append,
  append_assoc, Bool-cases, inl, inr,
}
use eu_nex.Common.Int.{ℤ, eq_ℤ, eq_ℤ→eq}
use eu_nex.Types.{Side, Order}
use eu_nex.Book.Levels.{Level, Levels, before, push_order, keep_level}
use eu_nex.Book.Levels.Sides.{AllPrices, AllOrders, IsSorted, before_all}
use eu_nex.Book.Levels.Index.{before_irrefl}
use eu_nex.Book.Queue.{place}

-- The orders in the order in which the loops of `matchBuy` and `matchSell` meet them.
unfoldable pub flat : Levels → List Order
flat [] = []
flat (l ∷ ls) = l.orders ++ flat ls

abbrev pub Priced : Levels → Type 0
Priced = AllOrders (λ p o. o.price ≡ p)

pub flat-keep_level :
    (l : Level) (os : List Order) (ls : Levels) → flat (keep_level l os ls) ≡ os ++ flat ls
unfolding flat
flat-keep_level l [] ls = refl
flat-keep_level l (o ∷ os) ls = refl

pub flat-All :
    (P : ℤ → Type 0) (ls : Levels) → Priced ls → AllPrices P ls → All (λ o. P o.price) (flat ls)
unfolding flat
flat-All P [] priced h = tt
flat-All P (l ∷ ls) priced h =
    All-append (λ o. P o.price) l.orders (flat ls)
      (All-mono (λ o. o.price ≡ l.price) (λ o. P o.price) (λ o e. rw e h.0) l.orders priced.0)
      (flat-All P ls priced.1 h.1)

place-front :
    (s : Side) (o : Order) (rs : List Order)
    → All (λ r. before s o.price r.price ≡ true) rs
    → place s o rs ≡ o ∷ rs
unfolding place
place-front s o [] h = refl
place-front s o (r ∷ rs) h = rw h.0 refl

place-behind :
    (s : Side) (o : Order) (os rs : List Order)
    → All (λ r. before s o.price r.price ≡ false) os
    → place s o (os ++ rs) ≡ os ++ place s o rs
unfolding place
place-behind s o [] rs h = refl
place-behind s o (r ∷ os) rs h = rw h.0 (ap (λ x. r ∷ x) (place-behind s o os rs h.1))

-- No order of a level is worse than another of its price.
behind_level :
    (s : Side) (p : ℤ) (l : Level)
    → before s p l.price ≡ false
    → All (λ o. o.price ≡ l.price) l.orders
    → All (λ r. before s p r.price ≡ false) l.orders
behind_level s p l later =
    All-mono (λ o. o.price ≡ l.price) (λ r. before s p r.price ≡ false) (λ o e. rw e later) l.orders

-- Entering the levels is taking one's place in the queue.
pub flat-push_order :
    (s : Side) (o : Order) (ls : Levels)
    → IsSorted s ls
    → Priced ls
    → flat (push_order s o ls) ≡ place s o (flat ls)
unfolding flat push_order
flat-push_order s o [] sorted priced = sym (place-front s o [] tt)
flat-push_order s o (l ∷ ls) sorted priced = elim (Bool-cases (eq_ℤ o.price l.price)) [
  | inl same ↦
      let e = eq_ℤ→eq o.price l.price same in
      rw same (
        append_assoc l.orders (o ∷ []) (flat ls)
        ∙ sym (
            place-behind s o l.orders (flat ls)
              (behind_level s o.price l (rw e (before_irrefl s l.price)) priced.0)
            ∙ ap (λ x. l.orders ++ x)
                (place-front s o (flat ls)
                  (flat-All (λ q. before s o.price q ≡ true) ls priced.1 (rw e sorted.0)))))
  | inr differ ↦ elim (Bool-cases (before s o.price l.price)) [
    | inl first ↦
        rw (differ, first)
          (sym (
            place-front s o (l.orders ++ flat ls) (
              flat-All (λ q. before s o.price q ≡ true) (l ∷ ls) priced
                (first, before_all s o.price l.price ls first sorted.0))))
    | inr later ↦
        rw (differ, later)
          (ap (λ x. l.orders ++ x) (flat-push_order s o ls sorted.1 priced.1)
            ∙ sym (place-behind s o l.orders (flat ls) (behind_level s o.price l later priced.0)))
  ]
]
