-- ===== src/Actors/Oeg/Tests.antt =====
-- The theorems about src/actors/OEGActor.cpp at a sample of events.
use eu_nex.Common.{◌≡◌, [], ◌∷◌}
use eu_nex.Common.Int.{pos}
use eu_nex.Types.{buy, stop_limit, day, filled}
use eu_nex.Actors.Events.{
  NewOrderEvent, CancelOrderEvent, ModifyOrderEvent, ExecReportEvent, new_order_event,
  cancel_order_event, exec_report_event,
}
use eu_nex.Actors.Oeg.{Oeg, map_symbol, on_new_order, on_cancel_order, on_modify_order}
use eu_nex.Actors.Oeg.Routing.{
  map_symbol-routes, on_exec_reports, events_to, on_exec_reports-each_times,
}

-- One symbol is mapped, and one actor has subscribed.
abbrev gateway : Oeg
gateway = record { symbol_map = (7, 41) ∷ []; exec_report_subscribers = 50 ∷ []; reports = [] }

abbrev stop_event : NewOrderEvent
stop_event = record {
  cl_ord_id = 12;
  symbol_idx = 7;
  side = buy;
  ord_type = stop_limit;
  tif = day;
  price = pos 106;
  quantity = 9;
  session_id = 3;
  stop_price = pos 105;
}

abbrev cancel_event : CancelOrderEvent
cancel_event = record { order_id = 2; orig_cl_ord_id = 12; symbol_idx = 7; session_id = 3 }

abbrev modify_event : ModifyOrderEvent
modify_event = record {
  order_id = 2;
  orig_cl_ord_id = 12;
  symbol_idx = 8;
  new_price = pos 104;
  new_quantity = 5;
  session_id = 3;
}

abbrev exec_event : ExecReportEvent
exec_event = record {
  report = record {
    order_id = 2;
    cl_ord_id = 12;
    status = filled;
    filled_qty = 9;
    remaining_qty = 0;
    last_price = pos 105;
    last_qty = 9;
    trade_id = 1;
  };
  session_id = 3;
}

-- The symbol 7 is mapped again, and the symbol 8 is not.
map_symbol-routes_example :
    let g = map_symbol 7 42 gateway in
    (on_new_order stop_event g
      ≡ (42, new_order_event (record stop_event { stop_price = pos 0 })) ∷ [])
    × (on_cancel_order cancel_event g ≡ (42, cancel_order_event cancel_event) ∷ [])
    × (on_modify_order modify_event g ≡ on_modify_order modify_event gateway)
map_symbol-routes_example = map_symbol-routes 7 42 stop_event cancel_event modify_event gateway

-- One of the two actors has subscribed twice.
on_exec_reports-each_times_example :
    let g = record gateway { exec_report_subscribers = 50 ∷ 51 ∷ 50 ∷ [] } in
    let (g', pushed) = on_exec_reports (exec_event ∷ []) g in
    (events_to 50 pushed ≡ exec_report_event exec_event ∷ exec_report_event exec_event ∷ [])
    × (g'.reports ≡ exec_event ∷ [])
    × (g'.exec_report_subscribers ≡ 50 ∷ 51 ∷ 50 ∷ [])
    × (g'.symbol_map ≡ (7, 41) ∷ [])
on_exec_reports-each_times_example =
    on_exec_reports-each_times 50 (exec_event ∷ [])
      (record gateway { exec_report_subscribers = 50 ∷ 51 ∷ 50 ∷ [] })
