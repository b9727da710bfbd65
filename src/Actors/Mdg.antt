-- ===== src/Actors/Mdg.antt =====
-- src/actors/MDGActor.hpp and src/actors/MDGActor.cpp: market data snapshots and recent trades. The
-- reading of the clock is an argument.
pub mod Snapshots
pub mod Tests
use eu_nex.Common.{
  ℕ, ◌+◌, List, [], ◌∷◌, ◌++◌, Option, ltb, if◌then◌else◌, length, lookup, insert, get_or, add64,
}
use eu_nex.Common.Int.{ℤ, pos}
use eu_nex.Types.{Trade}
use eu_nex.Actors.Events.{QuoteLevel, BookUpdateEvent}

pub record MarketDataSnapshot : Type 0 where
  pub symbol_idx : ℕ
  pub last_trade_price : ℤ
  pub last_trade_qty : ℕ
  pub best_bid : ℤ
  pub best_ask : ℤ
  pub total_bid_qty : ℕ
  pub total_ask_qty : ℕ
  pub trade_count : ℕ
  pub update_time : ℕ

pub record Mdg : Type 0 where
  pub snapshots : List (ℕ × MarketDataSnapshot)
  pub recent_trades : List Trade

abbrev pub max_recent_trades : ℕ
max_recent_trades = 200

-- The value that `snapshots_[symbol]` makes for a symbol that is not there.
abbrev pub no_snapshot : MarketDataSnapshot
no_snapshot = record {
  symbol_idx = 0;
  last_trade_price = pos 0;
  last_trade_qty = 0;
  best_bid = pos 0;
  best_ask = pos 0;
  total_bid_qty = 0;
  total_ask_qty = 0;
  trade_count = 0;
  update_time = 0;
}

unfoldable pub get_snapshot : ℕ → Mdg → Option MarketDataSnapshot
get_snapshot symbol_idx m = lookup symbol_idx m.snapshots

abbrev pub snapshot_at : ℕ → Mdg → MarketDataSnapshot
snapshot_at symbol_idx m = get_or (lookup symbol_idx m.snapshots) no_snapshot

-- `erase(begin())`
abbrev pub drop_first : List Trade → List Trade
drop_first [] = []
drop_first (t ∷ ts) = ts

unfoldable pub remember : Trade → List Trade → List Trade
remember t ts =
    let all = ts ++ t ∷ [] in if ltb max_recent_trades (length all) then drop_first all else all

unfoldable pub on_trade : ℕ → Trade → Mdg → Mdg
unfolding remember
on_trade now t m =
    let old = snapshot_at t.symbol_idx m in
    let snap = record old {
      symbol_idx = t.symbol_idx;
      last_trade_price = t.price;
      last_trade_qty = t.quantity;
      trade_count = add64 old.trade_count 1;
      update_time = now;
    } in
    record {
      snapshots = insert t.symbol_idx snap m.snapshots;
      recent_trades = remember t m.recent_trades;
    }

-- The sum of the quantities, in 64 bits.
unfoldable pub total_qty : ℕ → List QuoteLevel → ℕ
total_qty acc [] = acc
total_qty acc (q ∷ qs) = total_qty (add64 acc q.qty) qs

-- An empty side leaves the snapshot's values as they are.
abbrev pub quote_bids : List QuoteLevel → MarketDataSnapshot → MarketDataSnapshot
quote_bids [] s = s
quote_bids (q ∷ qs) s = record s { best_bid = q.price; total_bid_qty = total_qty 0 (q ∷ qs) }

abbrev pub quote_asks : List QuoteLevel → MarketDataSnapshot → MarketDataSnapshot
quote_asks [] s = s
quote_asks (q ∷ qs) s = record s { best_ask = q.price; total_ask_qty = total_qty 0 (q ∷ qs) }

unfoldable pub on_book_update : ℕ → BookUpdateEvent → Mdg → Mdg
unfolding total_qty
on_book_update now e m =
    let old = snapshot_at e.symbol_idx m in
    let stamped = record old { symbol_idx = e.symbol_idx; update_time = now } in
    let snap = quote_asks e.asks (quote_bids e.bids stamped) in
    record m { snapshots = insert e.symbol_idx snap m.snapshots }
