-- ===== src/Book/Entry/Fills.antt =====
-- How much of a new order is traded (`newOrder` and the two matching methods of
-- src/common/Book.cpp), and what becomes of the rest.
use eu_nex.Common.{
  ℕ, ◌+◌, ◌-◌, min, ◌<◌, ◌≡◌, refl, subst, false, ◌||◌, List, ◌++◌, arith, ltb, leb, if◌then◌else◌,
  sum_by-append,
}
use eu_nex.Types.{
  Side, buy, sell, Order, cts, is_market, is_stop, is_ioc, filled, cancelled, new, partially_filled,
  OrderStatus,
}
use eu_nex.Book.Levels.{Levels, Index, index_insert}
use eu_nex.Book.State.{Output, Clock, Book, insert_at, insert_resting}
use eu_nex.Book.Sweep.{Fill, start_fill, traded_qty}
use eu_nex.Book.Sweep.Quantities.{
  levels_qty, reachable_qty, traded_total, output_qty, sweep_levels-incoming,
  sweep_levels-incoming_qty, sweep_levels-levels_qty, sweep_levels-traded_total,
}
use eu_nex.Book.Matching.{blocked, match_outputs, match_levels, match_buy, match_sell}
use eu_nex.Book.Entry.{
  accept, take_order_id, opposite_levels, fok_short, match_order, rest_order, execute, new_order,
}

-- The quantity that rests on the other side within the order's limit.
abbrev pub crossing_qty : Book → Order → ℕ
crossing_qty b o = reachable_qty (blocked o.side o) (opposite_levels o.side b)

match_outputs-traded_total :
    (clk : Clock) (s : Side) (b : Book) (price : _) (f : Fill) (r : Order)
    → traded_total (match_outputs clk s b.symbol_idx price f r) ≡ traded_qty f.incoming r
unfolding match_outputs
match_outputs-traded_total clk buy b price f r = ground arith
match_outputs-traded_total clk sell b price f r = ground arith

-- The order after matching, the trades, and the other side of the book.
abbrev pub MatchesUpTo : ℕ → Order → Levels → Levels → Order → List Output → Type 0
MatchesUpTo q o levels levels' o' out =
    (o'.remaining_qty ≡ o.remaining_qty - q)
    × (traded_total out + o'.remaining_qty ≡ o.remaining_qty)
    × (levels_qty levels' + o.remaining_qty ≡ levels_qty levels + o'.remaining_qty)

match_levels-MatchesUpTo :
    (clk : Clock) (s : Side) (b : Book) (o : Order) (ls : Levels)
    → let (f, ls', out) = match_levels clk s b o ls in
      MatchesUpTo (reachable_qty (blocked s o) ls) o ls ls' f.incoming out
unfolding match_levels
match_levels-MatchesUpTo clk buy b o ls =
    let emit = match_outputs clk buy b.symbol_idx in
    (
      sweep_levels-incoming_qty emit (blocked buy) (λ q o. refl) (λ p. p) (start_fill b o) ls,
      sweep_levels-traded_total emit (blocked buy) (λ q o. refl) (λ p. p)
          (match_outputs-traded_total clk buy b) (start_fill b o) ls,
      sweep_levels-levels_qty emit (blocked buy) (λ q o. refl) (λ p. p) (start_fill b o) ls,
    )
match_levels-MatchesUpTo clk sell b o ls =
    let emit = match_outputs clk sell b.symbol_idx in
    (
      sweep_levels-incoming_qty emit (blocked sell) (λ q o. refl) (λ p. p) (start_fill b o) ls,
      sweep_levels-traded_total emit (blocked sell) (λ q o. refl) (λ p. p)
          (match_outputs-traded_total clk sell b) (start_fill b o) ls,
      sweep_levels-levels_qty emit (blocked sell) (λ q o. refl) (λ p. p) (start_fill b o) ls,
    )

-- Matching trades the smaller of what the order wants and what rests within its limit; the other
-- side of the book loses just that.
pub match_order-MatchesUpTo :
    (s : Side) (clk : Clock) (b : Book) (o : Order)
    → let (b', o', out) = match_order s clk b o in
      MatchesUpTo
        (reachable_qty (blocked s o) (opposite_levels s b))
        o
        (opposite_levels s b)
        (opposite_levels s b')
        o'
        out
unfolding match_buy match_sell
match_order-MatchesUpTo buy clk b o = match_levels-MatchesUpTo clk buy b o b.asks
match_order-MatchesUpTo sell clk b o = match_levels-MatchesUpTo clk sell b o b.bids

-- Of the order itself only the remaining quantity changes.
pub match_order-incoming :
    (s : Side) (clk : Clock) (b : Book) (o : Order)
    → let o' = (match_order s clk b o).1 in o' ≡ record o { remaining_qty = o'.remaining_qty }
unfolding match_buy match_sell match_levels
match_order-incoming buy clk b o =
    sweep_levels-incoming (match_outputs clk buy b.symbol_idx) (blocked buy) (λ q o. refl) (λ p. p)
      (start_fill b o) b.asks
match_order-incoming sell clk b o =
    sweep_levels-incoming (match_outputs clk sell b.symbol_idx) (blocked sell) (λ q o. refl)
      (λ p. p) (start_fill b o) b.bids

-- What is left of an order after matching: it is filled; or, a market or IOC order, cancelled; or
-- it rests. The last report says which, and the quantities that it carries add up.
abbrev pub final_status : Order → ℕ → OrderStatus
final_status o crossing =
    if leb o.quantity crossing
    then filled
    else if is_market o.ord_type || is_ioc o.tif
    then cancelled
    else if ltb 0 crossing
    then partially_filled
    else new

rest_order-status :
    (b : Book) (o : Order) (crossing : ℕ)
    → o.remaining_qty ≡ o.quantity - crossing
    → 0 < o.quantity
    → (rest_order b o).1.status ≡ final_status o crossing
unfolding rest_order
rest_order-status b o crossing h k = ground arith

rest_order-remaining_qty :
    (b : Book) (o : Order) → (rest_order b o).1.remaining_qty ≡ o.remaining_qty
unfolding rest_order
rest_order-remaining_qty b o = ground arith

rest_order-traded_total : (b : Book) (o : Order) → traded_total (rest_order b o).2 ≡ 0
unfolding rest_order
rest_order-traded_total b o = ground arith

insert_at-opposite :
    (s : Side) (o : Order) (b : Book) → opposite_levels s (insert_at s o b) ≡ opposite_levels s b
insert_at-opposite buy o b = refl
insert_at-opposite sell o b = refl

opposite_levels-index :
    (s : Side) (b : Book) (m : Index)
    → opposite_levels s (record b { order_index = m }) ≡ opposite_levels s b
opposite_levels-index buy b m = refl
opposite_levels-index sell b m = refl

pub rest_order-opposite :
    (b : Book) (o : Order) → opposite_levels o.side (rest_order b o).0 ≡ opposite_levels o.side b
unfolding rest_order insert_resting
rest_order-opposite b o =
    let index = index_insert o.order_id o.side o.price b.order_index in
    ground (
      arith,
      insert_at-opposite o.side (record o { status = partially_filled })
          (record b { order_index = index }),
      insert_at-opposite o.side (record o { status = new }) (record b { order_index = index }),
      opposite_levels-index o.side b index,
    )

-- The outcome of an order that is matched.
abbrev pub FillsUpTo : ℕ → Book → Order → Book × Order × List Output → Type 0
FillsUpTo crossing b o (b', o', out) =
    (o'.remaining_qty ≡ o.quantity - crossing)
    × (o'.status ≡ final_status o crossing)
    × (traded_total out ≡ min o.quantity crossing)
    × (levels_qty (opposite_levels o.side b') + traded_total out
        ≡ levels_qty (opposite_levels o.side b))

-- The two parts together, for any result of the first.
rest_after-FillsUpTo :
    (crossing : ℕ) (b : Book) (o : Order) (b1 : Book) (rem : ℕ) (out1 : List Output)
    → let o1 = record o { remaining_qty = rem } in
      let (b2, o2, out2) = rest_order b1 o1 in
      o.remaining_qty ≡ o.quantity
      → 0 < o.quantity
      → MatchesUpTo crossing o (opposite_levels o.side b) (opposite_levels o.side b1) o1 out1
      → FillsUpTo crossing b o (b2, o2, out1 ++ out2)
rest_after-FillsUpTo crossing b o b1 rem out1 fresh h m =
    let o1 = record o { remaining_qty = rem } in
    ground (
      arith,
      rest_order-remaining_qty b1 o1,
      rest_order-status b1 o1 crossing,
      rest_order-opposite b1 o1,
      rest_order-traded_total b1 o1,
      sum_by-append output_qty out1 (rest_order b1 o1).2,
    )

execute-FillsUpTo :
    (clk : Clock) (b : Book) (o : Order)
    → o.remaining_qty ≡ o.quantity
    → 0 < o.quantity
    → FillsUpTo (crossing_qty b o) b o (execute clk b o)
unfolding execute
execute-FillsUpTo clk b o fresh h =
    let (b1, o1, out1) = match_order o.side clk b o in
    rw (match_order-incoming o.side clk b o) (
      rest_after-FillsUpTo (crossing_qty b o) b o b1 o1.remaining_qty out1 fresh h
        (match_order-MatchesUpTo o.side clk b o))

pub opposite_levels-take_order_id :
    (s : Side) (b : Book) → opposite_levels s (take_order_id b) ≡ opposite_levels s b
opposite_levels-take_order_id buy b = refl
opposite_levels-take_order_id sell b = refl

blocked-accept :
    (s : Side) (clk : Clock) (b : Book) (o : Order) → blocked s (accept clk b o) ≡ blocked s o
unfolding accept
blocked-accept buy clk b o = refl
blocked-accept sell clk b o = refl

-- Continuous trading: an order that is no stop order and that passes the FOK check is executed.
pub new_order-execute :
    (clk : Clock) (b : Book) (o : Order)
    → b.phase ≡ cts
    → is_stop o.ord_type ≡ false
    → fok_short (take_order_id b) (accept clk b o) ≡ false
    → new_order clk b o ≡ execute clk (take_order_id b) (accept clk b o)
unfolding new_order accept
new_order-execute clk b o phase plain pass = ground arith

pub crossing_qty-accept :
    (clk : Clock) (b : Book) (o : Order)
    → crossing_qty (take_order_id b) (accept clk b o) ≡ crossing_qty b o
unfolding accept
crossing_qty-accept clk b o =
    cc (blocked-accept o.side clk b o, opposite_levels-take_order_id o.side b)

executed-FillsUpTo :
    (clk : Clock) (b : Book) (o : Order)
    → 0 < o.quantity
    → FillsUpTo
        (crossing_qty (take_order_id b) (accept clk b o))
        b
        o
        (execute clk (take_order_id b) (accept clk b o))
unfolding accept
executed-FillsUpTo clk b o h =
    let run = execute-FillsUpTo clk (take_order_id b) (accept clk b o) refl h in
    ground (arith, run, opposite_levels-take_order_id o.side b)

-- Continuous trading. A new order that is no stop order, that asks for something and that the FOK
-- check lets pass trades as much as rests on the other side within its limit, and no more; the
-- trades take just that off the other side; the order ends as filled, cancelled or resting.
pub new_order-FillsUpTo :
    (clk : Clock) (b : Book) (o : Order)
    → b.phase ≡ cts
    → is_stop o.ord_type ≡ false
    → fok_short (take_order_id b) (accept clk b o) ≡ false
    → 0 < o.quantity
    → FillsUpTo (crossing_qty b o) b o (new_order clk b o)
new_order-FillsUpTo clk b o phase plain pass h = rw (new_order-execute clk b o phase plain pass) (
    subst (λ c. FillsUpTo c b o (execute clk (take_order_id b) (accept clk b o)))
      (crossing_qty-accept clk b o) (executed-FillsUpTo clk b o h))
