-- ===== src/Book/Stops.antt =====
-- `triggerStopOrders` of src/common/Book.cpp.
use eu_nex.Common.{Bool, not, List, [], ◌∷◌, ◌++◌, keep}
use eu_nex.Common.Int.{ℤ, pos, leb_ℤ}
use eu_nex.Types.{Side, buy, sell, Order, OrderType, market, limit, stop_market, new}
use eu_nex.Book.State.{Output, Clock, Book}
use eu_nex.Book.Entry.{new_order}

-- A buy stop waits for a trade at its price or above, a sell stop for one at its price or below.
abbrev pub triggers_at : Side → ℤ → ℤ → Bool
triggers_at buy trade_price stop_price = leb_ℤ stop_price trade_price
triggers_at sell trade_price stop_price = leb_ℤ trade_price stop_price

abbrev pub triggers : ℤ → Order → Bool
triggers trade_price o = triggers_at o.side trade_price o.stop_price

-- A stop market order becomes a market order, any other a limit order at its own price.
abbrev pub converted_type : OrderType → OrderType
converted_type stop_market = market
converted_type _ = limit

abbrev pub converted_price : OrderType → ℤ → ℤ
converted_price stop_market p = pos 0
converted_price _ p = p

-- The fields that are not assigned are zero.
unfoldable pub convert : Order → Order
convert o = record {
  order_id = 0;
  cl_ord_id = o.cl_ord_id;
  symbol_idx = o.symbol_idx;
  side = o.side;
  ord_type = converted_type o.ord_type;
  tif = o.tif;
  price = converted_price o.ord_type o.price;
  quantity = o.remaining_qty;
  remaining_qty = 0;
  entry_time = 0;
  session_id = o.session_id;
  status = new;
  stop_price = pos 0;
}

-- The second loop: each triggered order is entered as a new one.
unfoldable pub enter_all : Clock → Book → List Order → Book × List Output
enter_all clk b [] = (b, [])
enter_all clk b (o ∷ os) =
    let (b1, _, out1) = new_order clk b (convert o) in
    let (b2, out2) = enter_all clk b1 os in (b2, out1 ++ out2)

unfoldable pub trigger_stop_orders : Clock → ℤ → Book → Book × List Output
trigger_stop_orders clk trade_price b =
    let remaining = keep (λ o. not (triggers trade_price o)) b.stop_orders in
    let triggered = keep (triggers trade_price) b.stop_orders in
    enter_all clk (record b { stop_orders = remaining }) triggered
