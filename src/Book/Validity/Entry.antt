-- ===== src/Book/Validity/Entry.antt =====
-- `newOrder` of src/common/Book.cpp keeps the invariant, and in continuous trading it never leaves
-- a bid at or above an ask.
use eu_nex.Common.{◌≤◌, ◌<◌, refl, [], ◌∷◌, arith, All-append, u64_mod}
use eu_nex.Types.{Side, buy, sell, Order, OrderStatus}
use eu_nex.Book.Levels.{index_insert}
use eu_nex.Book.Levels.Sides.{Rests, push_order-SideIsValid}
use eu_nex.Book.State.{Clock, Book, insert_at, insert_resting}
use eu_nex.Book.Sweep.{start_fill}
use eu_nex.Book.Sweep.Sides.{sweep_levels-SideIsValid}
use eu_nex.Book.Matching.{blocked, match_outputs, match_levels, match_buy, match_sell}
use eu_nex.Book.Entry.{accept, take_order_id, match_order, rest_order, execute, new_order}
use eu_nex.Book.Entry.Branches.{new_order_cases}
use eu_nex.Book.Entry.Fills.{match_order-MatchesUpTo, match_order-incoming}
use eu_nex.Book.Validity.{IsValid, IsParked}

pub insert_at-IsValid :
    (s : Side) (o : Order) (b : Book) → Rests s o.price o → IsValid b → IsValid (insert_at s o b)
insert_at-IsValid buy o b h v = record {
  bids = push_order-SideIsValid buy o b.bids h v.bids;
  asks = v.asks;
  stops = v.stops;
}
insert_at-IsValid sell o b h v = record {
  bids = v.bids;
  asks = push_order-SideIsValid sell o b.asks h v.asks;
  stops = v.stops;
}

pub insert_resting-IsValid :
    (o : Order) (b : Book) → Rests o.side o.price o → IsValid b → IsValid (insert_resting o b)
unfolding insert_resting
insert_resting-IsValid o b h v =
    let index = index_insert o.order_id o.side o.price b.order_index in
    insert_at-IsValid o.side o (record b { order_index = index }) h
      (record { bids = v.bids; asks = v.asks; stops = v.stops })

pub match_order-IsValid :
    (s : Side) (clk : Clock) (b : Book) (o : Order) → IsValid b → IsValid (match_order s clk b o).0
unfolding match_buy match_sell match_levels
match_order-IsValid buy clk b o v = record {
  bids = v.bids;
  asks =
      sweep_levels-SideIsValid (match_outputs clk buy b.symbol_idx) (λ p. p) (blocked buy) sell
        (start_fill b o) b.asks v.asks;
  stops = v.stops;
}
match_order-IsValid sell clk b o v = record {
  bids =
      sweep_levels-SideIsValid (match_outputs clk sell b.symbol_idx) (λ p. p) (blocked sell) buy
        (start_fill b o) b.bids v.bids;
  asks = v.asks;
  stops = v.stops;
}

rest_order-IsValid :
    (b : Book) (o : Order)
    → o.remaining_qty ≤ o.quantity
    → o.quantity < u64_mod
    → IsValid b
    → IsValid (rest_order b o).0
unfolding rest_order
rest_order-IsValid b o h k v =
    let resting = λ (status : OrderStatus). record o { status = status } in
    grind (arith, insert_resting-IsValid)

execute-IsValid :
    (clk : Clock) (b : Book) (o : Order)
    → o.remaining_qty ≤ o.quantity
    → o.quantity < u64_mod
    → IsValid b
    → IsValid (execute clk b o).0
unfolding execute
execute-IsValid clk b o h k v =
    let (b1, o1, out1) = match_order o.side clk b o in
    let fills = match_order-MatchesUpTo o.side clk b o in
    let same = match_order-incoming o.side clk b o in
    rest_order-IsValid b1 o1 (ground arith) (ground arith) (match_order-IsValid o.side clk b o v)

-- A new order for a positive quantity below 2^64 keeps a valid book valid, in every phase and on
-- every branch.
pub new_order-IsValid :
    (clk : Clock) (b : Book) (o : Order)
    → 0 < o.quantity
    → o.quantity < u64_mod
    → IsValid b
    → IsValid (new_order clk b o).0
unfolding accept
new_order-IsValid clk b o h k v =
    let b1 = take_order_id b in
    let o1 = accept clk b o in
    let v1 : IsValid b1 = record { bids = v.bids; asks = v.asks; stops = v.stops } in
    new_order_cases (λ r. IsValid r.0) clk b o
      (λ stop. record {
        bids = v.bids;
        asks = v.asks;
        stops = All-append IsParked b.stop_orders (o1 ∷ []) v.stops ((stop, h, refl, k), tt);
      })
      (λ _ _. insert_resting-IsValid o1 b1 (refl, refl, h, omega arith, k) v1) v1
      (λ _ _ _. execute-IsValid clk b1 o1 (omega arith) k v1)
