-- ===== src/Book/Queue.antt =====
-- What a book (src/common/Book.hpp) promises, without levels and without the table `orderIndex_`:
-- one queue of orders for each side, in the order in which they are served, and the orders that
-- are parked. An order is placed behind all that have its price or a better one, and an incoming
-- order is traded against the head of the other queue. An auction trades the asks in turn against
-- the bids, all at the price that the quantities wanted and offered decide.
pub mod Flat
pub mod Deals
pub mod Removal
pub mod Entry
pub mod Amends
pub mod Releases
pub mod Prices
pub mod Openings
pub mod Refines
pub mod Tests
use eu_nex.Common.{
  map, is_empty, ℕ, ◌+◌, ◌-◌, min, Bool, false, not, ◌&&◌, ◌||◌, List, [], ◌∷◌, ◌++◌, Option, none,
  some, ◌==◌, ltb, if◌then◌else◌, add64, sub64, or_else, ◌>>=◌, keep,
}
use eu_nex.Book.Auction.{Best, no_price, sort_prices}
use eu_nex.Common.Int.{ltb_ℤ, leb_ℤ, ℤ, pos, eq_ℤ}
use eu_nex.Types.{
  Side, buy, sell, Order, ExecutionReport, TradingPhase, new, partially_filled, filled, cancelled,
  rejected, limit, day, is_market, is_stop, is_ioc, is_fok,
}
use eu_nex.Book.Levels.{before}
use eu_nex.Book.State.{Output, traded, reported, Clock}
use eu_nex.Book.Sweep.{make_trade, reduce, traded_qty, fill_report, keep_order}
use eu_nex.Book.Matching.{blocked, sided_trade}
use eu_nex.Book.Entry.{order_report, accumulates, is_closed}
use eu_nex.Book.Cancel.{take_order}
use eu_nex.Book.Stops.{triggers, convert}

pub record Market : Type 0 where
  pub symbol_idx : ℕ
  pub next_trade_id : ℕ
  pub next_order_id : ℕ
  pub last_trade_price : ℤ
  pub phase : TradingPhase
  pub bids : List Order
  pub asks : List Order
  pub stop_orders : List Order

abbrev pub queue_of : Side → Market → List Order
queue_of buy m = m.bids
queue_of sell m = m.asks

abbrev pub set_queue : Side → List Order → Market → Market
set_queue buy os m = record m { bids = os }
set_queue sell os m = record m { asks = os }

abbrev pub other : Side → Side
other buy = sell
other sell = buy

-- Price first, then time: in front of the first order whose price is worse.
unfoldable pub place : Side → Order → List Order → List Order
place s o [] = o ∷ []
place s o (r ∷ rs) = if before s o.price r.price then o ∷ r ∷ rs else r ∷ place s o rs

abbrev pub place_order : Order → Market → Market
place_order o m = set_queue o.side (place o.side o (queue_of o.side m)) m

-- An incoming order on its way down the other queue.
pub record Deal : Type 0 where
  pub incoming : Order
  pub next_trade_id : ℕ
  pub last_trade_price : ℤ

abbrev pub after_deal : ℤ → Deal → Order → Deal
after_deal price d r = record {
  incoming = reduce (traded_qty d.incoming r) d.incoming;
  next_trade_id = add64 d.next_trade_id 1;
  last_trade_price = price;
}

module _ (emit : ℤ → Order → ℕ → Order → List Output) (price_at : ℤ → ℤ)
    (stop : Order → ℤ → Bool) where
  -- The queue is served from its head until the order is filled or the price is out of its limit.
  unfoldable pub deal : Deal → List Order → Deal × List Order × List Output
  deal d [] = (d, [], [])
  deal d (r ∷ rs) =
      let rest = deal (after_deal (price_at r.price) d r) rs in
      if d.incoming.remaining_qty == 0 || stop d.incoming r.price then (d, r ∷ rs, []) else (
        rest.0,
        keep_order (reduce (traded_qty d.incoming r) r) rest.1,
        emit (price_at r.price) d.incoming d.next_trade_id r ++ rest.2,
      )

-- The trade, and the report on the order that rested.
unfoldable pub deal_outputs : Clock → Side → ℕ → ℤ → Order → ℕ → Order → List Output
deal_outputs clk s symbol_idx price incoming id r =
    let quantity = traded_qty incoming r in
    traded (sided_trade s clk symbol_idx price id quantity incoming r)
    ∷ reported (fill_report (reduce quantity r) price quantity id)
    ∷ []

unfoldable pub deal_order : Side → Clock → Market → Order → Market × Order × List Output
deal_order s clk m o =
    let d0 : Deal = record {
      incoming = o;
      next_trade_id = m.next_trade_id;
      last_trade_price = m.last_trade_price;
    } in
    let (d, os, out) =
      deal (deal_outputs clk s m.symbol_idx) (λ p. p) (blocked s) d0 (queue_of (other s) m) in
    (
      record (set_queue (other s) os m) {
        next_trade_id = d.next_trade_id;
        last_trade_price = d.last_trade_price;
      },
      d.incoming,
      out,
    )

-- What the queue offers within the limit of the order.
unfoldable pub offered : (ℤ → Bool) → List Order → ℕ
offered stop [] = 0
offered stop (r ∷ rs) = if stop r.price then 0 else r.remaining_qty + offered stop rs

unfoldable pub too_small : Market → Order → Bool
too_small m o =
    is_fok o.tif && ltb (offered (blocked o.side o) (queue_of (other o.side) m)) o.quantity

unfoldable pub settle_rest : Market → Order → Market × List Output
settle_rest m o =
    let traded_so_far = sub64 o.quantity o.remaining_qty in
    if o.remaining_qty == 0
    then (m, reported (order_report o filled o.quantity 0) ∷ [])
    else if is_market o.ord_type || is_ioc o.tif
    then (m, reported (order_report o cancelled traded_so_far 0) ∷ [])
    else let status = if ltb o.remaining_qty o.quantity then partially_filled else new in
      (
        place_order (record o { status = status }) m,
        reported (order_report o status traded_so_far o.remaining_qty) ∷ [],
      )

abbrev pub next_id : Market → Market
next_id m = record m { next_order_id = add64 m.next_order_id 1 }

abbrev pub stamp : Clock → Market → Order → Order
stamp clk m o = record o {
  order_id = m.next_order_id;
  remaining_qty = o.quantity;
  status = new;
  entry_time = clk.entry_time m.next_order_id;
}

unfoldable pub serve : Clock → Market → Order → Market × List Output
serve clk m o =
    let (m1, o1, out1) = deal_order o.side clk m o in
    let (m2, out2) = settle_rest m1 o1 in (m2, out1 ++ out2)

unfoldable pub admit : Clock → Market → Order → Market × List Output
admit clk m0 incoming =
    let o = stamp clk m0 incoming in
    let m = next_id m0 in
    let accepted = reported (order_report o new 0 o.quantity) ∷ [] in
    if is_stop o.ord_type
    then (record m { stop_orders = m.stop_orders ++ o ∷ [] }, accepted)
    else if accumulates m.phase
    then (place_order o m, accepted)
    else if is_closed m.phase || too_small m o
    then (m, reported (order_report o rejected 0 o.quantity) ∷ [])
    else serve clk m o

-- The order leaves its queue, with a report of what it had traded.
unfoldable pub remove_resting : Side → ℕ → Market → Option (Market × ExecutionReport)
remove_resting s id m = do
  (o, others) ← take_order id (queue_of s m)
  some (set_queue s others m, order_report o cancelled (sub64 o.quantity o.remaining_qty) 0)

unfoldable pub remove_parked : ℕ → Market → Option (Market × ExecutionReport)
remove_parked id m = do
  (o, others) ← take_order id m.stop_orders
  some (record m { stop_orders = others }, order_report o cancelled 0 0)

unfoldable pub withdraw : ℕ → Market → Option (Market × ExecutionReport)
withdraw id m =
    or_else (remove_parked id m) (or_else (remove_resting buy id m) (remove_resting sell id m))

-- An order at this price waits in the queue.
unfoldable pub has_price : ℤ → List Order → Bool
has_price p [] = false
has_price p (r ∷ rs) = eq_ℤ p r.price || has_price p rs

-- The new order is a limit order for the day. It is a bid when some bid has the price 0.
unfoldable pub amended : Clock → Market → ℕ → ℤ → ℕ → Order
amended clk m cl_ord_id price quantity = record {
  order_id = m.next_order_id;
  cl_ord_id = cl_ord_id;
  symbol_idx = m.symbol_idx;
  side = if has_price (pos 0) m.bids then buy else sell;
  ord_type = limit;
  tif = day;
  price = price;
  quantity = quantity;
  remaining_qty = quantity;
  entry_time = clk.entry_time m.next_order_id;
  session_id = 0;
  status = new;
  stop_price = pos 0;
}

unfoldable pub amend : Clock → ℕ → ℤ → ℕ → Market → Option (Market × ExecutionReport)
amend clk id price quantity m = do
  (m1, gone) ← withdraw id m
  let o = amended clk m1 gone.cl_ord_id price quantity
  some (place_order o (next_id m1), order_report o new 0 quantity)

-- Each order that is triggered is entered in turn.
unfoldable pub enter_each : Clock → Market → List Order → Market × List Output
enter_each clk m [] = (m, [])
enter_each clk m (o ∷ os) =
    let (m1, out1) = admit clk m (convert o) in
    let (m2, out2) = enter_each clk m1 os in (m2, out1 ++ out2)

unfoldable pub release : Clock → ℤ → Market → Market × List Output
release clk trade_price m =
    enter_each clk
      (record m { stop_orders = keep (λ o. not (triggers trade_price o)) m.stop_orders })
      (keep (triggers trade_price) m.stop_orders)

-- The quantity of the orders whose price passes the test.
unfoldable pub qty_of : (ℤ → Bool) → List Order → ℕ
qty_of test [] = 0
qty_of test (o ∷ os) = (if test o.price then o.remaining_qty else 0) + qty_of test os

-- What would be bought, and what sold, at one price.
abbrev pub demand_at : Market → ℤ → ℕ
demand_at m p = qty_of (leb_ℤ p) m.bids

abbrev pub supply_at : Market → ℤ → ℕ
supply_at m p = qty_of (λ q. leb_ℤ q p) m.asks

abbrev pub quote : Market → ℤ → Best
quote m p = record {
  price = p;
  volume = min (demand_at m p) (supply_at m p);
  surplus =
      if ltb (supply_at m p) (demand_at m p)
      then demand_at m p - supply_at m p
      else supply_at m p - demand_at m p;
}

-- More volume; or as much, and less surplus; or as much of both, more demand and a higher price.
unfoldable pub is_better : Market → Best → ℤ → Bool
is_better m best p =
    let q = quote m p in
    ltb best.volume q.volume
    || (q.volume == best.volume && ltb q.surplus best.surplus)
    || (q.volume == best.volume
        && (q.surplus == best.surplus
            && (ltb (supply_at m p) (demand_at m p) && ltb_ℤ best.price p)))

unfoldable pub best_quote : Market → Best → List ℤ → Best
best_quote m best [] = best
best_quote m best (p ∷ ps) = best_quote m (if is_better m best p then quote m p else best) ps

abbrev pub prices : List Order → List ℤ
prices = map (λ o. o.price)

-- The best of the prices of the orders, from the lowest on.
unfoldable pub opening_price : Market → ℤ
opening_price m =
    let best = best_quote m no_price (sort_prices (prices m.bids ++ prices m.asks)) in
    if is_empty m.bids || is_empty m.asks
    then pos 0
    else if ltb 0 best.volume
    then best.price
    else pos 0

unfoldable pub opening_outputs : Clock → ℕ → ℤ → Order → ℕ → Order → List Output
opening_outputs clk symbol_idx price ask id bid =
    let quantity = traded_qty ask bid in
    traded (make_trade clk symbol_idx price id quantity bid ask)
    ∷ reported (fill_report (reduce quantity bid) price quantity id)
    ∷ reported (fill_report (reduce quantity ask) price quantity id)
    ∷ []

abbrev pub start_deal : Market → Order → Deal
start_deal m o = record {
  incoming = o;
  next_trade_id = m.next_trade_id;
  last_trade_price = m.last_trade_price;
}

-- One ask against the queue of bids, all at the opening price.
unfoldable pub open_ask : Clock → ℤ → Market → Order → Market × Order × List Output
open_ask clk iop m ask =
    let (d, os, out) =
      deal (opening_outputs clk m.symbol_idx) (λ p. iop) (λ o p. ltb_ℤ p iop) (start_deal m ask)
        m.bids in
    (
      record m {
        bids = os;
        next_trade_id = d.next_trade_id;
        last_trade_price = d.last_trade_price;
      },
      d.incoming,
      out,
    )

-- The asks in their order, up to the first above the opening price.
unfoldable pub open_asks : Clock → ℤ → Market → List Order → Market × List Order × List Output
open_asks clk iop m [] = (m, [], [])
open_asks clk iop m (ask ∷ asks) =
    let (m1, ask1, out1) = open_ask clk iop m ask in
    let rest = open_asks clk iop m1 asks in
    if leb_ℤ ask.price iop
    then (rest.0, keep_order ask1 rest.1, out1 ++ rest.2)
    else (m, ask ∷ asks, [])

abbrev pub open_at : Clock → ℤ → Market → Market × List Output
open_at clk iop m =
    let (m1, asks, out) = open_asks clk iop m m.asks in
    if eq_ℤ iop (pos 0) then (m, []) else (record m1 { asks = asks }, out)

unfoldable pub open_market : Clock → Market → Market × List Output
open_market clk m = open_at clk (opening_price m) m
