-- ===== src/Book/Queries.antt =====
-- The queries of src/common/Book.cpp: `bestBid`, `bestAsk`, `getLevels` and the counts.
use eu_nex.Common.{ℕ, zero, suc, ◌+◌, List, [], ◌∷◌, length}
use eu_nex.Common.Int.{ℤ, pos}
use eu_nex.Book.Levels.{Levels}
use eu_nex.Book.State.{Book}
use eu_nex.Book.Entry.{add_remaining}

pub record LevelView : Type 0 where
  pub price : ℤ
  pub total_qty : ℕ
  pub order_count : ℕ

unfoldable pub best_price : Levels → ℤ
best_price [] = pos 0
best_price (l ∷ ls) = l.price

unfoldable pub best_bid : Book → ℤ
unfolding best_price
best_bid b = best_price b.bids

unfoldable pub best_ask : Book → ℤ
unfolding best_price
best_ask b = best_price b.asks

-- `depth` counts the levels that are still wanted.
unfoldable pub get_levels : ℕ → Levels → List LevelView
unfolding add_remaining
get_levels zero ls = []
get_levels (suc depth) [] = []
get_levels (suc depth) (l ∷ ls) =
    record { price = l.price; total_qty = add_remaining 0 l.orders; order_count = length l.orders }
    ∷ get_levels depth ls

unfoldable pub get_bids : ℕ → Book → List LevelView
unfolding get_levels
get_bids depth b = get_levels depth b.bids

unfoldable pub get_asks : ℕ → Book → List LevelView
unfolding get_levels
get_asks depth b = get_levels depth b.asks

unfoldable pub order_count : Levels → ℕ
order_count [] = 0
order_count (l ∷ ls) = length l.orders + order_count ls

unfoldable pub bid_count : Book → ℕ
unfolding order_count
bid_count b = order_count b.bids

unfoldable pub ask_count : Book → ℕ
unfolding order_count
ask_count b = order_count b.asks

unfoldable pub stop_order_count : Book → ℕ
stop_order_count b = length b.stop_orders
