-- ===== src/Book/Queue/Releases.antt =====
-- `triggerStopOrders` (src/common/Book.cpp) does to a book what releasing the orders that are
-- triggered does to its queues.
use eu_nex.Common.{◌<◌, ◌≡◌, refl, ap, ◌∙◌, not, List, [], ◌∷◌, ◌++◌, arith, All, keep, u64_mod}
use eu_nex.Common.Int.{ℤ}
use eu_nex.Types.{Order}
use eu_nex.Book.State.{Output, Clock, Book}
use eu_nex.Book.Sweep.Quantities.{levels_qty}
use eu_nex.Book.Entry.{opposite_levels, new_order}
use eu_nex.Book.Stops.{triggers, convert, enter_all, trigger_stop_orders}
use eu_nex.Book.Validity.{IsValid, IsParked}
use eu_nex.Book.Validity.Entry.{new_order-IsValid}
use eu_nex.Book.Validity.Stops.{All-keep}
use eu_nex.Book.Queue.{Market, enter_each, release}
use eu_nex.Book.Queue.Entry.{view, new_order-admit}

-- Less than 2^64 rests against each order at its turn.
unfoldable pub HasRoom : Clock → List Order → Book → Type 0
HasRoom clk [] b = Unit
HasRoom clk (o ∷ os) b =
    (levels_qty (opposite_levels o.side b) < u64_mod)
    × HasRoom clk os (new_order clk b (convert o)).0

abbrev pub view_pair : Book × List Output → Market × List Output
view_pair r = (view r.0, r.1)

abbrev then_enter : Clock → List Order → Market × List Output → Market × List Output
then_enter clk os t = let (m, out) = enter_each clk t.0 os in (m, t.1 ++ out)

enter_all-enter_each :
    (clk : Clock) (b : Book) (os : List Order)
    → All IsParked os
    → IsValid b
    → HasRoom clk os b
    → view_pair (enter_all clk b os) ≡ enter_each clk (view b) os
unfolding enter_all enter_each convert HasRoom
enter_all-enter_each clk b [] parked v room = refl
enter_all-enter_each clk b (o ∷ os) parked v room =
    let (b1, o1, out1) = new_order clk b (convert o) in
    let first = new_order-admit clk b (convert o) v room.0 in
    let v1 = new_order-IsValid clk b (convert o) parked.0.1 (omega arith) v in
    let rest = enter_all-enter_each clk b1 os parked.1 v1 room.1 in
    ap (λ (t : Market × List Output). (t.0, out1 ++ t.1)) rest ∙ ap (then_enter clk os) first

pub trigger_stop_orders-release :
    (clk : Clock) (p : ℤ) (b : Book)
    → IsValid b
    → HasRoom clk
        (keep (triggers p) b.stop_orders)
        (record b { stop_orders = keep (λ o. not (triggers p o)) b.stop_orders })
    → view_pair (trigger_stop_orders clk p b) ≡ release clk p (view b)
unfolding trigger_stop_orders release view
trigger_stop_orders-release clk p b v room =
    enter_all-enter_each clk _ (keep (triggers p) b.stop_orders)
      (All-keep IsParked (triggers p) b.stop_orders v.stops)
      (record {
        bids = v.bids;
        asks = v.asks;
        stops = All-keep IsParked (λ o. not (triggers p o)) b.stop_orders v.stops;
      })
      room
