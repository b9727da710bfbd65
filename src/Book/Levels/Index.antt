-- ===== src/Book/Levels/Index.antt =====
-- The hash table `orderIndex_` (src/common/Book.hpp) against the levels of the book.
use eu_nex.Common.{
  ℕ, ◌≤◌, ◌<◌, ◌≡◌, refl, subst, ◌≢◌, true, false, List, [], ◌∷◌, none, some, arith, All, All-mono,
  ◌==◌, if◌then◌else◌,
}
use eu_nex.Common.Int.{ℤ}
use eu_nex.Types.{Side, buy, sell, Order}
use eu_nex.Book.Levels.{Levels, before, Index, index_find, index_erase, index_insert}
use eu_nex.Book.Levels.Sides.{AllPrices, AllOrders}

pub index_find-erase_ne :
    (k j : ℕ) (m : Index) → j ≢ k → index_find k (index_erase j m) ≡ index_find k m
unfolding index_find index_erase
index_find-erase_ne k j [] h = refl
index_find-erase_ne k j (e ∷ m) h = ground (arith, index_find-erase_ne k j m h)

pub index_find-insert :
    (k j : ℕ) (s : Side) (p : ℤ) (m : Index)
    → index_find k (index_insert j s p m) ≡ (if j == k then some (s, p) else index_find k m)
unfolding index_find index_insert
index_find-insert k j s p [] = refl
index_find-insert k j s p (e ∷ m) = ground (arith, index_find-insert k j s p m)

pub index_find-erase_none :
    (k j : ℕ) (m : Index) → index_find k m ≡ none → index_find k (index_erase j m) ≡ none
unfolding index_find index_erase
index_find-erase_none k j [] h = refl
index_find-erase_none k j (e ∷ m) h = ground (arith, index_find-erase_none k j m)

abbrev pub KeysBelow : ℕ → Index → Type 0
KeysBelow n = All (λ e. e.0 < n)

pub index_erase-KeysBelow : (n j : ℕ) (m : Index) → KeysBelow n m → KeysBelow n (index_erase j m)
unfolding index_erase
index_erase-KeysBelow n j [] h = tt
index_erase-KeysBelow n j (e ∷ m) h = ground (arith, index_erase-KeysBelow n j m h.1)

pub index_insert-KeysBelow :
    (n j : ℕ) (s : Side) (p : ℤ) (m : Index)
    → j < n
    → KeysBelow n m
    → KeysBelow n (index_insert j s p m)
unfolding index_insert
index_insert-KeysBelow n j s p [] h k = (h, tt)
index_insert-KeysBelow n j s p (e ∷ m) h k = ground (arith, index_insert-KeysBelow n j s p m h k.1)

pub index_find-above : (n k : ℕ) (m : Index) → KeysBelow n m → n ≤ k → index_find k m ≡ none
unfolding index_find
index_find-above n k [] h le = refl
index_find-above n k (e ∷ m) h le = ground (arith, index_find-above n k m h.1 le)

-- The table knows where the order rests.
abbrev pub Mapped : Side → Index → ℤ → Order → Type 0
Mapped s m p o = index_find o.order_id m ≡ some (s, p)

abbrev pub Indexed : Side → Index → Levels → Type 0
Indexed s m = AllOrders (Mapped s m)

-- Identifiers grow from the oldest order to the newest: time priority.
abbrev pub IsRising : List Order → Type 0
IsRising [] = Unit
IsRising (o ∷ os) = All (λ r. o.order_id < r.order_id) os × IsRising os

abbrev pub AllRising : Levels → Type 0
AllRising = All (λ l. IsRising l.orders)

-- No order of the list, or of the levels, has this identifier.
abbrev pub Without : ℕ → List Order → Type 0
Without k = All (λ o. o.order_id ≢ k)

abbrev pub AllWithout : ℕ → Levels → Type 0
AllWithout k = All (λ l. Without k l.orders)

-- What the table maps elsewhere is not here.
pub Without-elsewhere :
    (s : Side) (p : ℤ) (k : ℕ) (m : Index) (os : List Order)
    → index_find k m ≢ some (s, p)
    → All (Mapped s m p) os
    → Without k os
Without-elsewhere s p k m os h =
    All-mono (Mapped s m p) (λ o. o.order_id ≢ k)
      (λ o mapped same. h (subst (λ i. index_find i m ≡ some (s, p)) same mapped)) os

pub AllWithout-elsewhere :
    (s : Side) (k : ℕ) (m : Index) (ls : Levels)
    → AllPrices (λ p. index_find k m ≢ some (s, p)) ls
    → Indexed s m ls
    → AllWithout k ls
AllWithout-elsewhere s k m [] h i = tt
AllWithout-elsewhere s k m (l ∷ ls) h i =
    (Without-elsewhere s l.price k m l.orders h.0 i.0, AllWithout-elsewhere s k m ls h.1 i.1)

pub before_irrefl : (s : Side) (p : ℤ) → before s p p ≡ false
before_irrefl buy p = ground arith
before_irrefl sell p = ground arith

pub before-ne : (s : Side) (p q : ℤ) → before s p q ≡ true → q ≢ p
before-ne s p q h e = cc (before_irrefl s p)

-- An order that is mapped to a price is at no level behind that price.
pub AllWithout-behind :
    (s : Side) (p : ℤ) (k : ℕ) (m : Index) (ls : Levels)
    → index_find k m ≡ some (s, p)
    → AllPrices (λ q. before s p q ≡ true) ls
    → Indexed s m ls
    → AllWithout k ls
AllWithout-behind s p k m ls there behind i =
    AllWithout-elsewhere s k m ls
      (All-mono (λ l. before s p l.price ≡ true) (λ l. index_find k m ≢ some (s, l.price))
        (λ l b e. cc (before_irrefl s p)) ls behind)
      i

-- Nor is it on the other side.
pub AllWithout-other :
    (s s' : Side) (p : ℤ) (k : ℕ) (m : Index) (ls : Levels)
    → s' ≢ s
    → index_find k m ≡ some (s', p)
    → Indexed s m ls
    → AllWithout k ls
AllWithout-other s s' p k m [] ne there i = tt
AllWithout-other s s' p k m (l ∷ ls) ne there i = (
  Without-elsewhere s l.price k m l.orders (λ e. ne (ground arith)) i.0,
  AllWithout-other s s' p k m ls ne there i.1,
)

pub AllWithout-none :
    (s : Side) (k : ℕ) (m : Index) (ls : Levels)
    → index_find k m ≡ none
    → Indexed s m ls
    → AllWithout k ls
AllWithout-none s k m [] there i = tt
AllWithout-none s k m (l ∷ ls) there i =
    (Without-elsewhere s l.price k m l.orders (λ e. cc) i.0, AllWithout-none s k m ls there i.1)
