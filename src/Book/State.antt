-- ===== src/Book/State.antt =====
-- The class `Book` of src/common/Book.hpp. The callbacks `onTrade` and `onExec` become one list of
-- outputs, in the order of the calls. Each reading of the steady clock follows the allocation of
-- an identifier, so the readings are functions of that identifier.
use eu_nex.Common.{ℕ, List, []}
use eu_nex.Common.Int.{ℤ, pos}
use eu_nex.Types.{Side, buy, sell, Order, Trade, ExecutionReport, TradingPhase, cts}
use eu_nex.Book.Levels.{Levels, Index, push_order, index_insert}

pub data Output : Type 0 where
  traded : Trade → Output
  reported : ExecutionReport → Output

-- `nowNs()` after the allocation of an order's and of a trade's identifier.
pub record Clock : Type 0 where
  pub entry_time : ℕ → ℕ
  pub match_time : ℕ → ℕ

pub record Book : Type 0 where
  pub symbol_idx : ℕ
  pub next_trade_id : ℕ
  pub next_order_id : ℕ
  pub last_trade_price : ℤ
  pub phase : TradingPhase
  pub bids : Levels
  pub asks : Levels
  pub order_index : Index
  pub stop_orders : List Order

-- The constructor.
unfoldable pub new_book : ℕ → Book
new_book symbol_idx = record {
  symbol_idx = symbol_idx;
  next_trade_id = 1;
  next_order_id = 1;
  last_trade_price = pos 0;
  phase = cts;
  bids = [];
  asks = [];
  order_index = [];
  stop_orders = [];
}

unfoldable pub set_phase : TradingPhase → Book → Book
set_phase phase b = record b { phase = phase }

abbrev pub insert_at : Side → Order → Book → Book
insert_at buy o b = record b { bids = push_order buy o b.bids }
insert_at sell o b = record b { asks = push_order sell o b.asks }

unfoldable pub insert_resting : Order → Book → Book
insert_resting o b =
    let index = index_insert o.order_id o.side o.price b.order_index in
    insert_at o.side o (record b { order_index = index })
