-- ===== src/Book/Levels.antt =====
-- The price levels of one side (the maps `BidMap` and `AskMap` of src/common/Book.hpp) and the
-- hash table `orderIndex_`. A map is the list of its entries in the order of its comparison:
-- falling prices for bids, rising prices for asks.
pub mod Sides
pub mod Index
use eu_nex.Common.{ℕ, Bool, List, [], ◌∷◌, ◌++◌, Option, none, some, ◌==◌, if◌then◌else◌, is_empty}
use eu_nex.Common.Int.{ℤ, ltb_ℤ, eq_ℤ}
use eu_nex.Types.{Side, buy, sell, Order}

pub record Level : Type 0 where
  pub price : ℤ
  pub orders : List Order

abbrev pub Levels : Type 0
Levels = List Level

-- The comparison of the map: `std::greater` for bids, `std::less` for asks.
abbrev pub before : Side → ℤ → ℤ → Bool
before buy p q = ltb_ℤ q p
before sell p q = ltb_ℤ p q

-- `map[price].push_back(order)`
unfoldable pub push_order : Side → Order → Levels → Levels
push_order s o [] = record { price = o.price; orders = o ∷ [] } ∷ []
push_order s o (l ∷ ls) =
    if eq_ℤ o.price l.price
    then record l { orders = l.orders ++ o ∷ [] } ∷ ls
    else if before s o.price l.price
    then record { price = o.price; orders = o ∷ [] } ∷ l ∷ ls
    else l ∷ push_order s o ls

-- The level goes when its last order has gone.
abbrev pub keep_level : Level → List Order → Levels → Levels
keep_level l os ls = if is_empty os then ls else record l { orders = os } ∷ ls

-- `map.find(price)`, or `map.count(price)`
unfoldable pub find_level : ℤ → Levels → Option Level
find_level p [] = none
find_level p (l ∷ ls) = if eq_ℤ p l.price then some l else find_level p ls

-- The side and the price of each resting order, by its identifier.
abbrev pub Index : Type 0
Index = List (ℕ × Side × ℤ)

-- `orderIndex_.find(id)`
unfoldable pub index_find : ℕ → Index → Option (Side × ℤ)
index_find k [] = none
index_find k ((j, s, p) ∷ m) = if j == k then some (s, p) else index_find k m

-- `orderIndex_.erase(id)`
unfoldable pub index_erase : ℕ → Index → Index
index_erase k [] = []
index_erase k (e ∷ m) = if e.0 == k then m else e ∷ index_erase k m

-- `orderIndex_[id] = {side, price}`
unfoldable pub index_insert : ℕ → Side → ℤ → Index → Index
index_insert k s p [] = (k, s, p) ∷ []
index_insert k s p (e ∷ m) = if e.0 == k then (k, s, p) ∷ m else e ∷ index_insert k s p m
