-- ===== src/Actors/MeCore.antt =====
-- src/actors/MECoreActor.hpp and src/actors/MECoreActor.cpp: the actor that owns the book of one
-- symbol. What it publishes to Kafka is among its effects, if there is a bus.
pub mod Books
pub mod Reports
pub mod Tests
use eu_nex.Common.{
  ℕ, Bool, not, ◌&&◌, List, [], ◌∷◌, ◌++◌, map, Option, none, some, ltb, if◌then◌else◌, length,
}
use eu_nex.Common.Int.{ℤ, pos, eq_ℤ}
use eu_nex.Types.{Side, Order, Trade, ExecutionReport, OrderStatus, new, rejected}
use eu_nex.Book.State.{Output, traded, reported, Clock, Book}
use eu_nex.Book.Entry.{new_order}
use eu_nex.Book.Cancel.{cancel_order, modify_order}
use eu_nex.Book.Stops.{trigger_stop_orders}
use eu_nex.Book.Queries.{LevelView, get_bids, get_asks, stop_order_count}
use eu_nex.Actors.Events.{
  NewOrderEvent, CancelOrderEvent, ModifyOrderEvent, ExecReportEvent, QuoteLevel, BookUpdateEvent,
  Event, exec_report_event, trade_event, book_update_event,
}

-- `clearing_house` is `chPipe_`, and `kafka` tells whether there is a bus.
pub record MeCore : Type 0 where
  pub book : Book
  pub oe : ℕ
  pub md : ℕ
  pub clearing_house : Option ℕ
  pub kafka : Bool

pub data Effect : Type 0 where
  push : ℕ → Event → Effect
  publish_order : Order → Effect
  publish_trade : Trade → Effect
  publish_market_data : ℕ → ℤ → ℤ → ℕ → ℕ → Effect

abbrev pub when : Bool → Effect → List Effect
when c e = if c then e ∷ [] else []

abbrev pub push_to : Option ℕ → Event → List Effect
push_to none e = []
push_to (some id) e = push id e ∷ []

-- The constructor: the clearing house has a pipe if its identifier is not 0.
unfoldable pub new_me_core : Book → ℕ → ℕ → ℕ → Bool → MeCore
new_me_core b oe md clearing_house kafka = record {
  book = b;
  oe = oe;
  md = md;
  clearing_house = if ltb 0 clearing_house then some clearing_house else none;
  kafka = kafka;
}

-- The order of an event; the fields that are not assigned are zero.
unfoldable pub order_of : NewOrderEvent → Order
order_of e = record {
  order_id = 0;
  cl_ord_id = e.cl_ord_id;
  symbol_idx = e.symbol_idx;
  side = e.side;
  ord_type = e.ord_type;
  tif = e.tif;
  price = e.price;
  quantity = e.quantity;
  remaining_qty = 0;
  entry_time = 0;
  session_id = e.session_id;
  status = new;
  stop_price = e.stop_price;
}

-- The callbacks `onTrade` and `onExec`, which send every report to the session of the event.
abbrev pub callback : MeCore → ℕ → Output → List Effect
callback me session (traded t) =
    push me.md (trade_event t) ∷ push_to me.clearing_house (trade_event t)
    ++ when me.kafka (publish_trade t)
callback me session (reported r) =
    push me.oe (exec_report_event (record { report = r; session_id = session })) ∷ []

unfoldable pub callbacks : MeCore → ℕ → List Output → List Effect
callbacks me session [] = []
callbacks me session (o ∷ os) = callback me session o ++ callbacks me session os

abbrev pub quotes : List LevelView → List QuoteLevel
quotes = map (λ v. record { price = v.price; qty = v.total_qty })

abbrev pub first_price : List LevelView → ℤ
first_price [] = pos 0
first_price (v ∷ vs) = v.price

abbrev pub first_qty : List LevelView → ℕ
first_qty [] = 0
first_qty (v ∷ vs) = v.total_qty

unfoldable pub publish_book_update : MeCore → List Effect
publish_book_update me =
    let bids = get_bids 10 me.book in
    let asks = get_asks 10 me.book in
    let symbol_idx = me.book.symbol_idx in
    push me.md (
      book_update_event
        (record { symbol_idx = symbol_idx; bids = quotes bids; asks = quotes asks }))
    ∷ when me.kafka (
        publish_market_data symbol_idx (first_price bids) (first_price asks) (first_qty bids)
          (first_qty asks))

-- The stop orders are looked at once, after the new order.
unfoldable pub enter_order : Clock → Book → Order → Book × List Output
enter_order clk b o =
    let (b1, _, out1) = new_order clk b o in
    let (b2, out2) = trigger_stop_orders clk b1.last_trade_price b1 in
    if ltb 0 (stop_order_count b1) && not (eq_ℤ b1.last_trade_price (pos 0))
    then (b2, out1 ++ out2)
    else (b1, out1)

unfoldable pub on_new_order : Clock → NewOrderEvent → MeCore → MeCore × List Effect
unfolding enter_order
on_new_order clk e me =
    let o = order_of e in
    let (b, out) = enter_order clk me.book o in
    let me1 = record me { book = b } in
    (
      me1,
      when me.kafka (publish_order o) ++ callbacks me e.session_id out ++ publish_book_update me1,
    )

abbrev pub reject_report : ℕ → ℕ → ExecutionReport
reject_report order_id cl_ord_id = record {
  order_id = order_id;
  cl_ord_id = cl_ord_id;
  status = rejected;
  filled_qty = 0;
  remaining_qty = 0;
  last_price = pos 0;
  last_qty = 0;
  trade_id = 0;
}

-- The answer to a request that changes an order: the report and an update, or a rejection.
abbrev pub answer :
    MeCore → ℕ → ExecutionReport → Option (Book × ExecutionReport) → MeCore × List Effect
answer me session refusal none =
    (me, push me.oe (exec_report_event (record { report = refusal; session_id = session })) ∷ [])
answer me session refusal (some (b, rpt)) =
    let me1 = record me { book = b } in
    (
      me1,
      push me.oe (exec_report_event (record { report = rpt; session_id = session }))
          ∷ publish_book_update me1,
    )

unfoldable pub on_cancel_order : CancelOrderEvent → MeCore → MeCore × List Effect
on_cancel_order e me =
    answer me e.session_id (reject_report e.order_id e.orig_cl_ord_id)
      (cancel_order e.order_id me.book)

unfoldable pub on_modify_order : Clock → ModifyOrderEvent → MeCore → MeCore × List Effect
on_modify_order clk e me =
    answer me e.session_id (reject_report e.order_id e.orig_cl_ord_id)
      (modify_order clk e.order_id e.new_price e.new_quantity me.book)
