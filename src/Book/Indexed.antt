-- ===== src/Book/Indexed.antt =====
-- The identifiers of the class `Book` (src/common/Book.hpp): `orderIndex_` finds every resting
-- order, the orders of a level stand in the order of their arrival, and no stop order shares its
-- identifier. Every identifier is below `n`.
pub mod Entry
pub mod Cancel
pub mod Kept
pub mod Entered
use eu_nex.Common.{ℕ, ◌<◌, ◌≡◌, List, [], none, arith, All}
use eu_nex.Types.{buy, sell, Order}
use eu_nex.Book.Levels.{index_find, Index}
use eu_nex.Book.Levels.Index.{Indexed, AllRising, IsRising, KeysBelow}
use eu_nex.Book.State.{Book, new_book}

-- The identifier is given, and not to a resting order.
abbrev pub IsApart : ℕ → Index → Order → Type 0
IsApart n m o = (o.order_id < n) × (index_find o.order_id m ≡ none)

pub record IsIndexed (n : ℕ) (b : Book) : Type 0 where
  pub bids : Indexed buy b.order_index b.bids
  pub asks : Indexed sell b.order_index b.asks
  pub rising_bids : AllRising b.bids
  pub rising_asks : AllRising b.asks
  pub keys : KeysBelow n b.order_index
  pub stops : All (IsApart n b.order_index) b.stop_orders
  pub rising_stops : IsRising b.stop_orders

pub new_book-IsIndexed : (symbol_idx : ℕ) → IsIndexed 1 (new_book symbol_idx)
unfolding new_book
new_book-IsIndexed symbol_idx = record {
  bids = tt;
  asks = tt;
  rising_bids = tt;
  rising_asks = tt;
  keys = tt;
  stops = tt;
  rising_stops = tt;
}
