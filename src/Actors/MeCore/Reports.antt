-- ===== src/Actors/MeCore/Reports.antt =====
-- What `onNewOrder` of src/actors/MECoreActor.cpp sends to the other actors.
use eu_nex.Common.Int.{eq_ℤ, pos}
use eu_nex.Common.{is_empty, ◌||◌, ℕ, List, [], ◌∷◌, ◌++◌, ◌==◌, if◌then◌else◌}
use eu_nex.Types.{new, Order, Trade, ExecutionReport}
use eu_nex.Book.State.{Output, traded, reported, Book, Clock}
use eu_nex.Actors.Events.{NewOrderEvent, ExecReportEvent, exec_report_event, trade_event}
use eu_nex.Book.Entry.{new_order}
use eu_nex.Book.Stops.{trigger_stop_orders}
use eu_nex.Actors.MeCore.{MeCore, Effect, push}

abbrev pub trade_in : ℕ → Effect → List Trade
trade_in id (push j (trade_event t)) = if j == id then t ∷ [] else []
trade_in id _ = []

-- The trades that the actor `id` receives.
unfoldable pub trades_to : ℕ → List Effect → List Trade
trades_to id [] = []
trades_to id (e ∷ es) = trade_in id e ++ trades_to id es

abbrev pub report_in : ℕ → Effect → List ExecReportEvent
report_in id (push j (exec_report_event r)) = if j == id then r ∷ [] else []
report_in id _ = []

-- The reports that the actor `id` receives.
unfoldable pub reports_to : ℕ → List Effect → List ExecReportEvent
reports_to id [] = []
reports_to id (e ∷ es) = report_in id e ++ reports_to id es

unfoldable pub trades_of : List Output → List Trade
trades_of [] = []
trades_of (traded t ∷ os) = t ∷ trades_of os
trades_of (reported r ∷ os) = trades_of os

unfoldable pub reports_of : List Output → List ExecutionReport
reports_of [] = []
reports_of (traded t ∷ os) = reports_of os
reports_of (reported r ∷ os) = r ∷ reports_of os

-- What a new order on the book leads to: its own trades and reports, and then those of the stop
-- orders, at the last trade price, if there are stop orders and there has been a trade.
abbrev pub outputs_of : Clock → Book → Order → List Output
outputs_of clk b o =
    let (b1, _, out1) = new_order clk b o in
    let (b2, out2) = trigger_stop_orders clk b1.last_trade_price b1 in
    if is_empty b1.stop_orders || eq_ℤ b1.last_trade_price (pos 0) then out1 else out1 ++ out2

abbrev pub book_after : Clock → Book → Order → Book
book_after clk b o =
    let b1 = (new_order clk b o).0 in
    if is_empty b1.stop_orders || eq_ℤ b1.last_trade_price (pos 0)
    then b1
    else (trigger_stop_orders clk b1.last_trade_price b1).0

-- The order that an event asks for, which has no identifier yet.
abbrev pub asked : NewOrderEvent → Order
asked e = record {
  order_id = 0;
  cl_ord_id = e.cl_ord_id;
  symbol_idx = e.symbol_idx;
  side = e.side;
  ord_type = e.ord_type;
  tif = e.tif;
  price = e.price;
  quantity = e.quantity;
  remaining_qty = 0;
  entry_time = 0;
  session_id = e.session_id;
  status = new;
  stop_price = e.stop_price;
}
