-- ===== src/Actors/Fix.antt =====
-- The requests and the reports of src/actors/FIXAcceptorActor.cpp, between the parsing of messages
-- and the sockets. A text is the list of its characters' codes. The library's conversions of
-- numbers are parameters.
pub mod Symbols
pub mod Wire
pub mod Sessions
pub mod Tests
use eu_nex.Common.{
  ℕ, zero, suc, ◌%◌, ◌^◌, Bool, true, false, ◌&&◌, List, [], ◌∷◌, ◌++◌, Option, none, some, ltb,
  ◌==◌, if◌then◌else◌, lookup, get_or,
}
use eu_nex.Common.Int.{ℤ, pos}
use eu_nex.Types.{
  Side, buy, sell, OrderType, market, limit, TimeInForce, day, gtc, ioc, fok, OrderStatus, new,
  partially_filled, filled, cancelled, rejected,
}
use eu_nex.Actors.Events.{NewOrderEvent, CancelOrderEvent, ModifyOrderEvent, ExecReportEvent}

abbrev pub Text : Type 0
Text = List ℕ

-- The value of each tag of a message.
abbrev pub TagMap : Type 0
TagMap = List (ℕ × Text)

abbrev pub eq_text : Text → Text → Bool
eq_text [] [] = true
eq_text [] (b ∷ bs) = false
eq_text (c ∷ cs) [] = false
eq_text (c ∷ cs) (b ∷ bs) = c == b && eq_text cs bs

-- A text of one digit or letter.
abbrev pub is_char : ℕ → Text → Bool
is_char c t = eq_text t (c ∷ [])

abbrev pub aapl : Text
aapl = 65 ∷ 65 ∷ 80 ∷ 76 ∷ []

abbrev pub msft : Text
msft = 77 ∷ 83 ∷ 70 ∷ 84 ∷ []

abbrev pub googl : Text
googl = 71 ∷ 79 ∷ 79 ∷ 71 ∷ 76 ∷ []

abbrev pub tsla : Text
tsla = 84 ∷ 83 ∷ 76 ∷ 65 ∷ []

abbrev pub nvda : Text
nvda = 78 ∷ 86 ∷ 68 ∷ 65 ∷ []

abbrev pub amd : Text
amd = 65 ∷ 77 ∷ 68 ∷ []

abbrev pub enx : Text
enx = 69 ∷ 78 ∷ 88 ∷ []

-- `strtoull` and `strtoul` in base 10, `std::to_string` of a number, `toFixedPrice(strtod(s))` and
-- `std::to_string(toDouble(p))`.
pub record Conversions : Type 0 where
  pub strtoull : Text → ℕ
  pub to_string : ℕ → Text
  pub parse_price : Text → ℤ
  pub print_price : ℤ → Text

unfoldable pub get_tag : TagMap → ℕ → Text → Text
get_tag msg tag def = get_or (lookup tag msg) def

abbrev pub zero_text : Text
zero_text = 48 ∷ []

abbrev pub status_to_ord_status : OrderStatus → Text
status_to_ord_status new = 48 ∷ []
status_to_ord_status partially_filled = 49 ∷ []
status_to_ord_status filled = 50 ∷ []
status_to_ord_status cancelled = 52 ∷ []
status_to_ord_status rejected = 56 ∷ []

abbrev pub status_to_exec_type : OrderStatus → Text
status_to_exec_type new = 48 ∷ []
status_to_exec_type partially_filled = 70 ∷ []
status_to_exec_type filled = 70 ∷ []
status_to_exec_type cancelled = 52 ∷ []
status_to_exec_type rejected = 56 ∷ []

abbrev pub tif_of : Text → TimeInForce
tif_of t =
    if is_char 49 t then gtc else if is_char 51 t then ioc else if is_char 52 t then fok else day

module _ (std : Conversions) where
  -- A symbol index has 32 bits.
  unfoldable pub symbol_from_string : Text → ℕ
  symbol_from_string sym =
      if eq_text sym aapl
      then 1
      else if eq_text sym msft
      then 2
      else if eq_text sym googl
      then 3
      else if eq_text sym tsla
      then 4
      else if eq_text sym nvda
      then 5
      else if eq_text sym amd
      then 6
      else if eq_text sym enx
      then 7
      else std.strtoull sym % 2 ^ 32

  unfoldable pub symbol_to_string : ℕ → Text
  symbol_to_string idx =
      if idx == 1
      then aapl
      else if idx == 2
      then msft
      else if idx == 3
      then googl
      else if idx == 4
      then tsla
      else if idx == 5
      then nvda
      else if idx == 6
      then amd
      else if idx == 7
      then enx
      else std.to_string idx

  -- The event that is pushed for a session. Its constructor has the stop price 0 by default.
  unfoldable pub handle_new_order_single : ℕ → TagMap → NewOrderEvent
  unfolding get_tag symbol_from_string
  handle_new_order_single session_id msg = record {
    cl_ord_id = std.strtoull (get_tag msg 11 []);
    symbol_idx = symbol_from_string (get_tag msg 55 []);
    side = if is_char 49 (get_tag msg 54 []) then buy else sell;
    ord_type = if is_char 49 (get_tag msg 40 []) then market else limit;
    tif = tif_of (get_tag msg 59 zero_text);
    price = std.parse_price (get_tag msg 44 zero_text);
    quantity = std.strtoull (get_tag msg 38 []);
    session_id = session_id;
    stop_price = pos 0;
  }

  unfoldable pub handle_cancel_request : ℕ → TagMap → CancelOrderEvent
  unfolding get_tag symbol_from_string
  handle_cancel_request session_id msg = record {
    order_id = std.strtoull (get_tag msg 37 zero_text);
    orig_cl_ord_id = std.strtoull (get_tag msg 41 []);
    symbol_idx = symbol_from_string (get_tag msg 55 []);
    session_id = session_id;
  }

  unfoldable pub handle_cancel_replace_request : ℕ → TagMap → ModifyOrderEvent
  unfolding get_tag symbol_from_string
  handle_cancel_replace_request session_id msg = record {
    order_id = std.strtoull (get_tag msg 37 zero_text);
    orig_cl_ord_id = std.strtoull (get_tag msg 41 []);
    symbol_idx = symbol_from_string (get_tag msg 55 []);
    new_price = std.parse_price (get_tag msg 44 zero_text);
    new_quantity = std.strtoull (get_tag msg 38 []);
    session_id = session_id;
  }

  -- The fields of an execution report; the last price and quantity are left out if that is 0.
  unfoldable pub exec_report_fields : ExecReportEvent → TagMap
  exec_report_fields e =
      let r = e.report in
      (37, std.to_string r.order_id)
      ∷ (11, std.to_string r.cl_ord_id)
      ∷ (17, std.to_string r.trade_id)
      ∷ (150, status_to_exec_type r.status)
      ∷ (39, status_to_ord_status r.status)
      ∷ (14, std.to_string r.filled_qty)
      ∷ (151, std.to_string r.remaining_qty)
      ∷ (if ltb 0 r.last_qty
          then (31, std.print_price r.last_price) ∷ (32, std.to_string r.last_qty) ∷ []
          else [])
