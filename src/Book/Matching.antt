-- ===== src/Book/Matching.antt =====
-- `matchBuy` and `matchSell` of src/common/Book.cpp. The two differ in the side that they read, in
-- the comparison of prices and in the roles of the two orders.
use eu_nex.Common.{ℕ, Bool, not, ◌&&◌, List, [], ◌∷◌}
use eu_nex.Common.Int.{ℤ, ltb_ℤ}
use eu_nex.Types.{Side, buy, sell, Order, Trade, is_market}
use eu_nex.Book.Levels.{Levels}
use eu_nex.Book.State.{Output, traded, reported, Clock, Book}
use eu_nex.Book.Sweep.{
  Fill, start_fill, store_fill, traded_qty, make_trade, fill_report, resting_after, sweep_levels,
}

-- The limit of an incoming order of this side excludes a level at this price.
abbrev pub blocked : Side → Order → ℤ → Bool
blocked buy o p = not (is_market o.ord_type) && ltb_ℤ o.price p
blocked sell o p = not (is_market o.ord_type) && ltb_ℤ p o.price

-- The trade, with the incoming order on its side.
abbrev pub sided_trade : Side → Clock → ℕ → ℤ → ℕ → ℕ → Order → Order → Trade
sided_trade buy clk symbol_idx price id quantity incoming resting =
    make_trade clk symbol_idx price id quantity incoming resting
sided_trade sell clk symbol_idx price id quantity incoming resting =
    make_trade clk symbol_idx price id quantity resting incoming

-- The callbacks of one round: the trade, and the report on the resting order.
unfoldable pub match_outputs : Clock → Side → ℕ → ℤ → Fill → Order → List Output
unfolding resting_after
match_outputs clk s symbol_idx price f r =
    let quantity = traded_qty f.incoming r in
    traded (sided_trade s clk symbol_idx price f.next_trade_id quantity f.incoming r)
    ∷ reported (fill_report (resting_after f r) price quantity f.next_trade_id)
    ∷ []

-- A trade is made at the price of the level.
unfoldable pub match_levels : Clock → Side → Book → Order → Levels → Fill × Levels × List Output
match_levels clk s b o =
    sweep_levels (match_outputs clk s b.symbol_idx) (λ p. p) (blocked s) (start_fill b o)

unfoldable pub match_buy : Clock → Book → Order → Book × Order × List Output
unfolding match_levels
match_buy clk b o =
    let (f, levels, out) = match_levels clk buy b o b.asks in
    (record (store_fill b f) { asks = levels }, f.incoming, out)

unfoldable pub match_sell : Clock → Book → Order → Book × Order × List Output
unfolding match_levels
match_sell clk b o =
    let (f, levels, out) = match_levels clk sell b o b.bids in
    (record (store_fill b f) { bids = levels }, f.incoming, out)
