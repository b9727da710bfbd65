-- ===== src/Book/Entry.antt =====
-- `newOrder` of src/common/Book.cpp.
pub mod Frame
pub mod Branches
pub mod Fills
pub mod Fok
pub mod Prices
use eu_nex.Common.{
  ℕ, Bool, true, false, ◌&&◌, ◌||◌, List, [], ◌∷◌, ◌++◌, ◌==◌, ltb, leb, if◌then◌else◌, add64,
  sub64,
}
use eu_nex.Common.Int.{pos}
use eu_nex.Types.{
  Side, buy, sell, Order, ExecutionReport, OrderStatus, new, partially_filled, filled, cancelled,
  rejected, TradingPhase, pre_open, opening, closed, is_market, is_stop, is_ioc, is_fok,
}
use eu_nex.Book.Levels.{Levels}
use eu_nex.Book.State.{Output, reported, Clock, Book, insert_resting}
use eu_nex.Book.Matching.{blocked, match_buy, match_sell}

-- A report that is not about a trade.
abbrev pub order_report : Order → OrderStatus → ℕ → ℕ → ExecutionReport
order_report o status filled_qty remaining_qty = record {
  order_id = o.order_id;
  cl_ord_id = o.cl_ord_id;
  status = status;
  filled_qty = filled_qty;
  remaining_qty = remaining_qty;
  last_price = pos 0;
  last_qty = 0;
  trade_id = 0;
}

abbrev pub accumulates : TradingPhase → Bool
accumulates pre_open = true
accumulates opening = true
accumulates _ = false

abbrev pub is_closed : TradingPhase → Bool
is_closed closed = true
is_closed _ = false

-- The first four assignments.
unfoldable pub accept : Clock → Book → Order → Order
accept clk b o = record o {
  order_id = b.next_order_id;
  remaining_qty = o.quantity;
  status = new;
  entry_time = clk.entry_time b.next_order_id;
}

abbrev pub take_order_id : Book → Book
take_order_id b = record b { next_order_id = add64 b.next_order_id 1 }

-- The sum of a level's quantities on top of `acc`, in 64 bits.
unfoldable pub add_remaining : ℕ → List Order → ℕ
add_remaining acc [] = acc
add_remaining acc (r ∷ rs) = add_remaining (add64 acc r.remaining_qty) rs

-- The loop of the FOK check: it stops at the first level beyond the limit, and once enough is
-- found.
unfoldable pub available_qty : Side → Order → ℕ → Levels → ℕ
unfolding add_remaining
available_qty s o acc [] = acc
available_qty s o acc (l ∷ ls) =
    let found = add_remaining acc l.orders in
    let rest = available_qty s o found ls in
    if blocked s o l.price then acc else if leb o.quantity found then found else rest

abbrev pub opposite_levels : Side → Book → Levels
opposite_levels buy b = b.asks
opposite_levels sell b = b.bids

-- The FOK check refuses the order.
unfoldable pub fok_short : Book → Order → Bool
fok_short b o = is_fok o.tif && ltb (available_qty o.side o 0 (opposite_levels o.side b)) o.quantity

abbrev pub match_order : Side → Clock → Book → Order → Book × Order × List Output
match_order buy = match_buy
match_order sell = match_sell

abbrev pub acknowledge : Book → Order → Book × Order × List Output
acknowledge b o = (b, o, reported (order_report o new 0 o.quantity) ∷ [])

-- A stop order waits for its trigger.
abbrev pub park : Book → Order → Book × Order × List Output
park b o = acknowledge (record b { stop_orders = b.stop_orders ++ o ∷ [] }) o

abbrev pub reject : Book → Order → Book × Order × List Output
reject b o =
    (b, record o { status = rejected }, reported (order_report o rejected 0 o.quantity) ∷ [])

-- What is left after matching rests on the book, or is cancelled.
unfoldable pub rest_order : Book → Order → Book × Order × List Output
rest_order b o =
    if o.remaining_qty == 0
    then (b, record o { status = filled }, reported (order_report o filled o.quantity 0) ∷ [])
    else if is_market o.ord_type || is_ioc o.tif
    then (
      b,
      record o { status = cancelled },
      reported (order_report o cancelled (sub64 o.quantity o.remaining_qty) 0) ∷ [],
    )
    else let status = if ltb o.remaining_qty o.quantity then partially_filled else new in
      let resting = record o { status = status } in
      (
        insert_resting resting b,
        resting,
        reported (order_report o status (sub64 o.quantity o.remaining_qty) o.remaining_qty) ∷ [],
      )

-- Matching, and then the rest of the order.
unfoldable pub execute : Clock → Book → Order → Book × Order × List Output
execute clk b o =
    let (b1, o1, out1) = match_order o.side clk b o in
    let (b2, o2, out2) = rest_order b1 o1 in (b2, o2, out1 ++ out2)

unfoldable pub new_order : Clock → Book → Order → Book × Order × List Output
new_order clk b0 incoming =
    let o = accept clk b0 incoming in
    let b = take_order_id b0 in
    if is_stop o.ord_type
    then park b o
    else if accumulates b.phase
    then acknowledge (insert_resting o b) o
    else if is_closed b.phase
    then reject b o
    else if fok_short b o
    then reject b o
    else execute clk b o
