-- ===== src/Book/Auction.antt =====
-- `getIOP` and `uncross` of src/common/Book.cpp.
pub mod Price
pub mod Crossing
pub mod Trades
pub mod Bids
pub mod Asks
pub mod Kept
pub mod Invariant
use eu_nex.Common.{
  ℕ, ◌-◌, min, Bool, ◌&&◌, ◌||◌, List, [], ◌∷◌, ◌++◌, ◌==◌, ltb, if◌then◌else◌, is_empty, u64_mod,
  map,
}
use eu_nex.Common.Int.{ℤ, pos, ltb_ℤ, leb_ℤ, eq_ℤ}
use eu_nex.Types.{Order}
use eu_nex.Book.Levels.{Levels, keep_level, index_erase}
use eu_nex.Book.State.{Output, traded, reported, Clock, Book}
use eu_nex.Book.Sweep.{
  Fill, start_fill, store_fill, traded_qty, reduce, make_trade, fill_report, resting_after,
  keep_order, sweep_levels,
}
use eu_nex.Book.Entry.{add_remaining}

-- `std::sort` and `std::unique`: rising prices, each once.
unfoldable pub insert_price : ℤ → List ℤ → List ℤ
insert_price p [] = p ∷ []
insert_price p (q ∷ qs) =
    if ltb_ℤ p q then p ∷ q ∷ qs else if eq_ℤ p q then q ∷ qs else q ∷ insert_price p qs

unfoldable pub sort_prices : List ℤ → List ℤ
unfolding insert_price
sort_prices [] = []
sort_prices (p ∷ ps) = insert_price p (sort_prices ps)

unfoldable pub candidate_prices : Book → List ℤ
unfolding sort_prices
candidate_prices b = sort_prices (map (λ l. l.price) b.bids ++ map (λ l. l.price) b.asks)

-- The quantity at the levels whose price passes the test, in 64 bits.
unfoldable pub cumulate : (ℤ → Bool) → ℕ → Levels → ℕ
unfolding add_remaining
cumulate test acc [] = acc
cumulate test acc (l ∷ ls) =
    cumulate test (if test l.price then add_remaining acc l.orders else acc) ls

unfoldable pub cum_buy : Book → ℤ → ℕ
unfolding cumulate
cum_buy b p = cumulate (leb_ℤ p) 0 b.bids

unfoldable pub cum_sell : Book → ℤ → ℕ
unfolding cumulate
cum_sell b p = cumulate (λ q. leb_ℤ q p) 0 b.asks

pub record Best : Type 0 where
  pub price : ℤ
  pub volume : ℕ
  pub surplus : ℕ

unfoldable pub volume_at : Book → ℤ → ℕ
unfolding cum_buy cum_sell
volume_at b p = min (cum_buy b p) (cum_sell b p)

unfoldable pub surplus_at : Book → ℤ → ℕ
unfolding cum_buy cum_sell
surplus_at b p =
    if ltb (cum_sell b p) (cum_buy b p)
    then cum_buy b p - cum_sell b p
    else cum_sell b p - cum_buy b p

-- The test of one round. (`bestBuySurplus` is written and never read.)
unfoldable pub improves : Book → Best → ℤ → Bool
unfolding volume_at surplus_at
improves b best p =
    ltb best.volume (volume_at b p)
    || (volume_at b p == best.volume && ltb (surplus_at b p) best.surplus)
    || (volume_at b p == best.volume
        && (surplus_at b p == best.surplus
            && (ltb (cum_sell b p) (cum_buy b p) && ltb_ℤ best.price p)))

unfoldable pub best_of : Book → Best → List ℤ → Best
unfolding improves
best_of b best [] = best
best_of b best (p ∷ ps) =
    let next : Best = record { price = p; volume = volume_at b p; surplus = surplus_at b p } in
    best_of b (if improves b best p then next else best) ps

abbrev pub no_price : Best
no_price = record { price = pos 0; volume = 0; surplus = u64_mod - 1 }

unfoldable pub get_iop : Book → ℤ
unfolding candidate_prices best_of
get_iop b =
    let best = best_of b no_price (candidate_prices b) in
    if is_empty b.bids || is_empty b.asks
    then pos 0
    else if ltb 0 best.volume
    then best.price
    else pos 0

-- The callbacks of one round: the trade, and the reports on the bid and on the ask. The ask is the
-- order that is being filled.
unfoldable pub auction_outputs : Clock → ℕ → ℤ → Fill → Order → List Output
unfolding resting_after
auction_outputs clk symbol_idx price f bid =
    let quantity = traded_qty f.incoming bid in
    traded (make_trade clk symbol_idx price f.next_trade_id quantity bid f.incoming)
    ∷ reported (fill_report (resting_after f bid) price quantity f.next_trade_id)
    ∷ reported (fill_report (reduce quantity f.incoming) price quantity f.next_trade_id)
    ∷ []

-- The two inner loops: one ask against the bids at the price `iop` or above.
unfoldable pub cross_bids : Clock → ℤ → Book → Order → Book × Order × List Output
cross_bids clk iop b ask =
    let (f, levels, out) =
      sweep_levels (auction_outputs clk b.symbol_idx) (λ p. iop) (λ o p. ltb_ℤ p iop)
        (start_fill b ask) b.bids in
    (record (store_fill b f) { bids = levels }, f.incoming, out)

-- The loop over the asks of a level.
unfoldable pub cross_orders : Clock → ℤ → Book → List Order → Book × List Order × List Output
unfolding cross_bids
cross_orders clk iop b [] = (b, [], [])
cross_orders clk iop b (ask ∷ asks) =
    let (b1, ask1, out1) = cross_bids clk iop b ask in
    let index =
      if ask1.remaining_qty == 0
      then index_erase ask1.order_id b1.order_index
      else b1.order_index in
    let rest = cross_orders clk iop (record b1 { order_index = index }) asks in
    (rest.0, keep_order ask1 rest.1, out1 ++ rest.2)

-- The outer loop. (`remainingVolume` is never written, so its tests always pass.)
unfoldable pub cross_levels : Clock → ℤ → Book → Levels → Book × Levels × List Output
unfolding cross_orders
cross_levels clk iop b [] = (b, [], [])
cross_levels clk iop b (l ∷ ls) =
    let inner = cross_orders clk iop b l.orders in
    let rest = cross_levels clk iop inner.0 ls in
    if leb_ℤ l.price iop
    then (rest.0, keep_level l inner.1 rest.1, inner.2 ++ rest.2)
    else (b, l ∷ ls, [])

unfoldable pub uncross : Clock → Book → Book × List Output
unfolding get_iop cross_levels
uncross clk b =
    let iop = get_iop b in
    let (b1, levels, out) = cross_levels clk iop b b.asks in
    if eq_ℤ iop (pos 0) then (b, []) else (record b1 { asks = levels }, out)
