-- ===== src/Book/Validity.antt =====
-- The invariant of the class `Book` (src/common/Book.hpp): both sides are in order, and the parked
-- orders are stop orders that still want all of their quantity.
pub mod Entry
pub mod Uncrossed
pub mod Cancel
pub mod Modify
pub mod Stops
use eu_nex.Common.{ℕ, ◌<◌, ◌≡◌, refl, Bool, true, List, [], arith, All, u64_mod}
use eu_nex.Common.Int.{ltb_ℤ}
use eu_nex.Types.{buy, sell, Order, is_stop}
use eu_nex.Book.Levels.Sides.{SideIsValid, AllPrices}
use eu_nex.Book.State.{Book, new_book}

abbrev pub IsParked : Order → Type 0
IsParked o =
    (is_stop o.ord_type ≡ true)
    × (0 < o.remaining_qty)
    × (o.remaining_qty ≡ o.quantity)
    × (o.quantity < u64_mod)

pub record IsValid (b : Book) : Type 0 where
  pub bids : SideIsValid buy b.bids
  pub asks : SideIsValid sell b.asks
  pub stops : All IsParked b.stop_orders

-- Every bid is below every ask.
abbrev pub IsUncrossed : Book → Type 0
IsUncrossed b = AllPrices (λ p. AllPrices (λ q. ltb_ℤ p q ≡ true) b.asks) b.bids

pub new_book-IsValid : (symbol_idx : ℕ) → IsValid (new_book symbol_idx)
unfolding new_book
new_book-IsValid symbol_idx = record {
  bids = record { sorted = tt; none_empty = tt; resting = tt };
  asks = record { sorted = tt; none_empty = tt; resting = tt };
  stops = tt;
}
