-- ===== src/Book/Sweep.antt =====
-- The loops that `matchBuy`, `matchSell` and `uncross` of src/common/Book.cpp share: an order is
-- traded against the levels of the other side, best price first, and against the orders of a level
-- from the oldest on. They differ in the callbacks (`emit`), the price of a trade (`price_at`) and
-- the test that ends the outer loop (`stop`).
pub mod Quantities
pub mod Sides
pub mod Entries
pub mod Outputs
use eu_nex.Common.{ℕ, ◌-◌, min, Bool, List, [], ◌∷◌, ◌++◌, ◌==◌, if◌then◌else◌, add64, sub64}
use eu_nex.Common.Int.{ℤ}
use eu_nex.Types.{Order, Trade, ExecutionReport, OrderStatus, filled, partially_filled}
use eu_nex.Book.Levels.{Levels, keep_level, Index, index_erase}
use eu_nex.Book.State.{Output, Clock, Book}

-- What the loops write: the incoming order, and the fields of the book but for the levels.
pub record Fill : Type 0 where
  pub incoming : Order
  pub next_trade_id : ℕ
  pub last_trade_price : ℤ
  pub order_index : Index

abbrev pub start_fill : Book → Order → Fill
start_fill b o = record {
  incoming = o;
  next_trade_id = b.next_trade_id;
  last_trade_price = b.last_trade_price;
  order_index = b.order_index;
}

-- The book with what the loops wrote.
abbrev pub store_fill : Book → Fill → Book
store_fill b f = record b {
  next_trade_id = f.next_trade_id;
  last_trade_price = f.last_trade_price;
  order_index = f.order_index;
}

abbrev pub traded_qty : Order → Order → ℕ
traded_qty incoming resting = min incoming.remaining_qty resting.remaining_qty

-- `remainingQty -= traded`; what is traded is never more, so nothing wraps.
abbrev pub reduce : ℕ → Order → Order
reduce q o = record o { remaining_qty = o.remaining_qty - q }

abbrev pub make_trade : Clock → ℕ → ℤ → ℕ → ℕ → Order → Order → Trade
make_trade clk symbol_idx price id quantity bid ask = record {
  trade_id = id;
  symbol_idx = symbol_idx;
  price = price;
  quantity = quantity;
  buy_order_id = bid.order_id;
  sell_order_id = ask.order_id;
  buy_cl_ord_id = bid.cl_ord_id;
  sell_cl_ord_id = ask.cl_ord_id;
  match_time = clk.match_time id;
  buy_session_id = bid.session_id;
  sell_session_id = ask.session_id;
}

abbrev pub fill_status : Order → OrderStatus
fill_status o = if o.remaining_qty == 0 then filled else partially_filled

-- The report on an order that has just been reduced by `quantity`.
abbrev pub fill_report : Order → ℤ → ℕ → ℕ → ExecutionReport
fill_report o price quantity id = record {
  order_id = o.order_id;
  cl_ord_id = o.cl_ord_id;
  status = fill_status o;
  filled_qty = sub64 o.quantity o.remaining_qty;
  remaining_qty = o.remaining_qty;
  last_price = price;
  last_qty = quantity;
  trade_id = id;
}

-- The state after a trade with a resting order, and the resting order after it.
unfoldable pub after_trade : ℤ → Fill → Order → Fill
after_trade price f r =
    let quantity = traded_qty f.incoming r in
    record {
      incoming = reduce quantity f.incoming;
      next_trade_id = add64 f.next_trade_id 1;
      last_trade_price = price;
      order_index =
          if r.remaining_qty - quantity == 0
          then index_erase r.order_id f.order_index
          else f.order_index;
    }

unfoldable pub resting_after : Fill → Order → Order
resting_after f r = reduce (traded_qty f.incoming r) r

-- A resting order that is filled leaves its level.
abbrev pub keep_order : Order → List Order → List Order
keep_order o os = if o.remaining_qty == 0 then os else o ∷ os

module _ (emit : ℤ → Fill → Order → List Output) where
  -- The inner loop, over the orders of a level.
  unfoldable pub sweep_orders : ℤ → Fill → List Order → Fill × List Order × List Output
  sweep_orders price f [] = (f, [], [])
  sweep_orders price f (r ∷ rs) =
      let rest = sweep_orders price (after_trade price f r) rs in
      if f.incoming.remaining_qty == 0
      then (f, r ∷ rs, [])
      else (rest.0, keep_order (resting_after f r) rest.1, emit price f r ++ rest.2)

  module _ (price_at : ℤ → ℤ) (stop : Order → ℤ → Bool) where
    -- The outer loop, over the levels.
    unfoldable pub sweep_levels : Fill → Levels → Fill × Levels × List Output
    sweep_levels f [] = (f, [], [])
    sweep_levels f (l ∷ ls) =
        let inner = sweep_orders (price_at l.price) f l.orders in
        let rest = sweep_levels inner.0 ls in
        if f.incoming.remaining_qty == 0
        then (f, l ∷ ls, [])
        else if stop f.incoming l.price
        then (f, l ∷ ls, [])
        else (rest.0, keep_level l inner.1 rest.1, inner.2 ++ rest.2)
