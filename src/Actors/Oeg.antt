-- ===== src/Actors/Oeg.antt =====
-- src/actors/OEGActor.hpp and src/actors/OEGActor.cpp: the order entry gateway.
pub mod Routing
pub mod Tests
use eu_nex.Common.{ℕ, List, [], ◌∷◌, ◌++◌, map, Option, none, some, lookup, insert}
use eu_nex.Common.Int.{ℤ, pos}
use eu_nex.Types.{Side, OrderType, TimeInForce}
use eu_nex.Actors.Events.{
  NewOrderEvent, CancelOrderEvent, ModifyOrderEvent, ExecReportEvent, Event, new_order_event,
  cancel_order_event, modify_order_event, exec_report_event, Push,
}

-- The counter `nextClOrdId_` is never used.
pub record Oeg : Type 0 where
  pub symbol_map : List (ℕ × ℕ)
  pub exec_report_subscribers : List ℕ
  pub reports : List ExecReportEvent

unfoldable pub map_symbol : ℕ → ℕ → Oeg → Oeg
map_symbol symbol_idx actor_id g = record g { symbol_map = insert symbol_idx actor_id g.symbol_map }

-- Nothing is sent for a symbol that is not mapped.
abbrev pub route : Option ℕ → Event → List Push
route none e = []
route (some actor_id) e = (actor_id, e) ∷ []

-- The event is built without a stop price, whose default is 0.
unfoldable pub submit_new_order :
    ℕ → ℕ → Side → OrderType → TimeInForce → ℤ → ℕ → ℕ → Oeg → List Push
submit_new_order cl_ord_id symbol_idx side ord_type tif price qty session g =
    route (lookup symbol_idx g.symbol_map) (
      new_order_event (record {
        cl_ord_id = cl_ord_id;
        symbol_idx = symbol_idx;
        side = side;
        ord_type = ord_type;
        tif = tif;
        price = price;
        quantity = qty;
        session_id = session;
        stop_price = pos 0;
      }))

unfoldable pub submit_cancel : ℕ → ℕ → ℕ → ℕ → Oeg → List Push
submit_cancel order_id orig_cl_ord_id symbol_idx session g =
    route (lookup symbol_idx g.symbol_map) (
      cancel_order_event (record {
        order_id = order_id;
        orig_cl_ord_id = orig_cl_ord_id;
        symbol_idx = symbol_idx;
        session_id = session;
      }))

unfoldable pub submit_modify : ℕ → ℕ → ℕ → ℤ → ℕ → ℕ → Oeg → List Push
submit_modify order_id orig_cl_ord_id symbol_idx new_price new_qty session g =
    route (lookup symbol_idx g.symbol_map) (
      modify_order_event (record {
        order_id = order_id;
        orig_cl_ord_id = orig_cl_ord_id;
        symbol_idx = symbol_idx;
        new_price = new_price;
        new_quantity = new_qty;
        session_id = session;
      }))

unfoldable pub on_new_order : NewOrderEvent → Oeg → List Push
unfolding submit_new_order
on_new_order e =
    submit_new_order e.cl_ord_id e.symbol_idx e.side e.ord_type e.tif e.price e.quantity
      e.session_id

unfoldable pub on_cancel_order : CancelOrderEvent → Oeg → List Push
unfolding submit_cancel
on_cancel_order e = submit_cancel e.order_id e.orig_cl_ord_id e.symbol_idx e.session_id

unfoldable pub on_modify_order : ModifyOrderEvent → Oeg → List Push
unfolding submit_modify
on_modify_order e =
    submit_modify e.order_id e.orig_cl_ord_id e.symbol_idx e.new_price e.new_quantity e.session_id

unfoldable pub add_exec_report_subscriber : ℕ → Oeg → Oeg
add_exec_report_subscriber id g = record g {
  exec_report_subscribers = g.exec_report_subscribers ++ id ∷ [];
}

unfoldable pub on_exec_report : ExecReportEvent → Oeg → Oeg × List Push
on_exec_report e g = (
  record g { reports = g.reports ++ e ∷ [] },
  map (λ id. (id, exec_report_event e)) g.exec_report_subscribers,
)

unfoldable pub clear_reports : Oeg → Oeg
clear_reports g = record g { reports = [] }
