-- ===== src/Book/Cancel.antt =====
-- `cancelStopOrder`, `cancelOrder`, `modifyOrder` and `removeOrder` of src/common/Book.cpp. A method
-- that returns false changes nothing, and is `none`; otherwise it gives the book and the report.
use eu_nex.Common.{
  ℕ, List, [], ◌∷◌, Option, none, some, ◌==◌, ◌>>=◌, or_else, if◌then◌else◌, keep, not, sub64,
}
use eu_nex.Common.Int.{ℤ, pos, eq_ℤ}
use eu_nex.Types.{Side, buy, sell, Order, ExecutionReport, new, cancelled, limit, day}
use eu_nex.Book.Levels.{Levels, keep_level, find_level, index_find, index_erase}
use eu_nex.Book.State.{Clock, Book, insert_resting}
use eu_nex.Book.Entry.{order_report, take_order_id}

-- The first order with this identifier, and the others.
unfoldable pub take_order : ℕ → List Order → Option (Order × List Order)
take_order id [] = none
take_order id (o ∷ os) =
    let rest = take_order id os in
    if o.order_id == id then some (o, os) else rest >>= λ (found, others). some (found, o ∷ others)

unfoldable pub cancel_stop_order : ℕ → Book → Option (Book × ExecutionReport)
cancel_stop_order id b = do
  (o, others) ← take_order id b.stop_orders
  some (record b { stop_orders = others }, order_report o cancelled 0 0)

-- Looks for the order at the level with this price, and erases it; the level too, if that was all.
unfoldable pub take_at : ℕ → ℤ → Levels → Option (Order × Levels)
take_at id p [] = none
take_at id p (l ∷ ls) =
    let here = take_order id l.orders in
    let beyond = take_at id p ls in
    if eq_ℤ p l.price
    then (here >>= λ (o, os). some (o, keep_level l os ls))
    else beyond >>= λ (o, rest). some (o, l ∷ rest)

abbrev pub levels_of : Side → Book → Levels
levels_of buy b = b.bids
levels_of sell b = b.asks

abbrev pub set_levels : Side → Levels → Book → Book
set_levels buy ls b = record b { bids = ls }
set_levels sell ls b = record b { asks = ls }

unfoldable pub cancel_resting : ℕ → Book → Option (Book × ExecutionReport)
cancel_resting id b = do
  (side, price) ← index_find id b.order_index
  (o, ls) ← take_at id price (levels_of side b)
  some (
    record (set_levels side ls b) { order_index = index_erase id b.order_index },
    order_report o cancelled (sub64 o.quantity o.remaining_qty) 0,
  )

-- Stop orders are checked first.
unfoldable pub cancel_order : ℕ → Book → Option (Book × ExecutionReport)
cancel_order id b = or_else (cancel_stop_order id b) (cancel_resting id b)

-- `bids_.count(price) ? Side::Buy : Side::Sell`
abbrev pub side_at : ℤ → Levels → Side
side_at p bids = elim (find_level p bids) [ some _ ↦ buy | none ↦ sell ]

-- What the method does once the order is cancelled: the fields that it does not assign are zero.
unfoldable pub replacement : Clock → Book → ExecutionReport → ℤ → ℕ → Order
replacement clk b cancel_rpt new_price new_qty = record {
  order_id = b.next_order_id;
  cl_ord_id = cancel_rpt.cl_ord_id;
  symbol_idx = b.symbol_idx;
  side = side_at cancel_rpt.last_price b.bids;
  ord_type = limit;
  tif = day;
  price = new_price;
  quantity = new_qty;
  remaining_qty = new_qty;
  entry_time = clk.entry_time b.next_order_id;
  session_id = 0;
  status = new;
  stop_price = pos 0;
}

unfoldable pub modify_order : Clock → ℕ → ℤ → ℕ → Book → Option (Book × ExecutionReport)
modify_order clk id new_price new_qty b = do
  (b1, cancel_rpt) ← cancel_order id b
  let o = replacement clk b1 cancel_rpt new_price new_qty
  some (insert_resting o (take_order_id b1), order_report o new 0 new_qty)

-- Erases every order with this identifier at the level with this price.
unfoldable pub remove_at : ℕ → ℤ → Levels → Levels
remove_at id p [] = []
remove_at id p (l ∷ ls) =
    if eq_ℤ p l.price
    then keep_level l (keep (λ o. not (o.order_id == id)) l.orders) ls
    else l ∷ remove_at id p ls

unfoldable pub remove_order : ℕ → Side → ℤ → Book → Book
remove_order id side price b = record (set_levels side (remove_at id price (levels_of side b)) b) {
  order_index = index_erase id b.order_index;
}
