-- ===== src/Types.antt =====
-- src/common/Types.hpp: prices, enumerations, orders, trades and execution reports. A price is a
-- signed number of 10^-8 units; quantities and identifiers are the numbers below their word size.
use eu_nex.Common.{ℕ, Bool, true, false}
use eu_nex.Common.Int.{ℤ}

pub data Side : Type 0 where
  buy sell : Side

pub data OrderType : Type 0 where
  market limit stop_market stop_limit : OrderType

pub data TimeInForce : Type 0 where
  day gtc ioc fok : TimeInForce

pub data OrderStatus : Type 0 where
  new partially_filled filled cancelled rejected : OrderStatus

pub data TradingPhase : Type 0 where
  pre_open opening cts closed : TradingPhase

pub record Order : Type 0 where
  pub order_id : ℕ
  pub cl_ord_id : ℕ
  pub symbol_idx : ℕ
  pub side : Side
  pub ord_type : OrderType
  pub tif : TimeInForce
  pub price : ℤ
  pub quantity : ℕ
  pub remaining_qty : ℕ
  pub entry_time : ℕ
  pub session_id : ℕ
  pub status : OrderStatus
  pub stop_price : ℤ

pub record Trade : Type 0 where
  pub trade_id : ℕ
  pub symbol_idx : ℕ
  pub price : ℤ
  pub quantity : ℕ
  pub buy_order_id : ℕ
  pub sell_order_id : ℕ
  pub buy_cl_ord_id : ℕ
  pub sell_cl_ord_id : ℕ
  pub match_time : ℕ
  pub buy_session_id : ℕ
  pub sell_session_id : ℕ

pub record ExecutionReport : Type 0 where
  pub order_id : ℕ
  pub cl_ord_id : ℕ
  pub status : OrderStatus
  pub filled_qty : ℕ
  pub remaining_qty : ℕ
  pub last_price : ℤ
  pub last_qty : ℕ
  pub trade_id : ℕ

-- The comparisons `==` of an enumeration with one of its values.
abbrev pub is_buy : Side → Bool
is_buy buy = true
is_buy sell = false

abbrev pub is_market : OrderType → Bool
is_market market = true
is_market _ = false

abbrev pub is_stop : OrderType → Bool
is_stop stop_market = true
is_stop stop_limit = true
is_stop _ = false

abbrev pub is_ioc : TimeInForce → Bool
is_ioc ioc = true
is_ioc _ = false

abbrev pub is_fok : TimeInForce → Bool
is_fok fok = true
is_fok _ = false
