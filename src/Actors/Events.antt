-- ===== src/Actors/Events.antt =====
-- src/actors/Events.hpp: the events that the actors exchange. An actor is known by the number `id`
-- of its `ActorId`. The arrays of `BookUpdateEvent` are lists, whose lengths are the two depths.
use eu_nex.Common.{ℕ, List}
use eu_nex.Common.Int.{ℤ}
use eu_nex.Types.{Side, OrderType, TimeInForce, Trade, ExecutionReport}

pub record NewOrderEvent : Type 0 where
  pub cl_ord_id : ℕ
  pub symbol_idx : ℕ
  pub side : Side
  pub ord_type : OrderType
  pub tif : TimeInForce
  pub price : ℤ
  pub quantity : ℕ
  pub session_id : ℕ
  pub stop_price : ℤ

pub record CancelOrderEvent : Type 0 where
  pub order_id : ℕ
  pub orig_cl_ord_id : ℕ
  pub symbol_idx : ℕ
  pub session_id : ℕ

pub record ModifyOrderEvent : Type 0 where
  pub order_id : ℕ
  pub orig_cl_ord_id : ℕ
  pub symbol_idx : ℕ
  pub new_price : ℤ
  pub new_quantity : ℕ
  pub session_id : ℕ

-- The fields of the report, and the session that it is sent to.
pub record ExecReportEvent : Type 0 where
  pub report : ExecutionReport
  pub session_id : ℕ

pub record QuoteLevel : Type 0 where
  pub price : ℤ
  pub qty : ℕ

pub record BookUpdateEvent : Type 0 where
  pub symbol_idx : ℕ
  pub bids : List QuoteLevel
  pub asks : List QuoteLevel

pub data Event : Type 0 where
  new_order_event : NewOrderEvent → Event
  cancel_order_event : CancelOrderEvent → Event
  modify_order_event : ModifyOrderEvent → Event
  exec_report_event : ExecReportEvent → Event
  trade_event : Trade → Event
  book_update_event : BookUpdateEvent → Event

-- An event in a pipe to an actor.
abbrev pub Push : Type 0
Push = ℕ × Event
