-- ===== src/Actors/MeCore/Tests.antt =====
-- The theorems about src/actors/MECoreActor.cpp at a sample of events.
use eu_nex.Common.{◌≡◌, false, true, none, some, arith}
use eu_nex.Common.Int.{pos}
use eu_nex.Types.{buy, limit, day}
use eu_nex.Book.Entry.{accumulates}
use eu_nex.Book.Cancel.{cancel_order}
use eu_nex.Book.Validity.{IsValid, IsUncrossed}
use eu_nex.Book.Tests.{clk, book, book-IsValid}
use eu_nex.Actors.Events.{NewOrderEvent, CancelOrderEvent, ModifyOrderEvent}
use eu_nex.Actors.MeCore.{MeCore, on_new_order, on_cancel_order, on_modify_order}
use eu_nex.Actors.MeCore.Books.{
  on_new_order-IsValid, on_cancel_order-IsValid, on_modify_order-IsValid,
}

abbrev core : MeCore
core = record { book = book; oe = 30; md = 31; clearing_house = some 32; kafka = true }

-- It trades with both asks, and the trades trigger the parked stop order.
abbrev buy_event : NewOrderEvent
buy_event = record {
  cl_ord_id = 12;
  symbol_idx = 7;
  side = buy;
  ord_type = limit;
  tif = day;
  price = pos 105;
  quantity = 9;
  session_id = 3;
  stop_price = pos 0;
}

on_new_order-IsValid_example :
    let b = (on_new_order clk buy_event core).0.book in
    IsValid b × (accumulates book.phase ≡ false → IsUncrossed book → IsUncrossed b)
on_new_order-IsValid_example =
    on_new_order-IsValid clk buy_event core (ground arith) (ground arith) book-IsValid

abbrev cancel_event : CancelOrderEvent
cancel_event = record { order_id = 2; orig_cl_ord_id = 2; symbol_idx = 7; session_id = 1 }

on_cancel_order-IsValid_example :
    IsValid (on_cancel_order cancel_event core).0.book
    × (cancel_order 2 book ≡ none → (on_cancel_order cancel_event core).0 ≡ core)
on_cancel_order-IsValid_example = on_cancel_order-IsValid cancel_event core book-IsValid

abbrev modify_event : ModifyOrderEvent
modify_event = record {
  order_id = 2;
  orig_cl_ord_id = 2;
  symbol_idx = 7;
  new_price = pos 104;
  new_quantity = 5;
  session_id = 1;
}

on_modify_order-IsValid_example : IsValid (on_modify_order clk modify_event core).0.book
on_modify_order-IsValid_example =
    on_modify_order-IsValid clk modify_event core (ground arith) (ground arith) book-IsValid
