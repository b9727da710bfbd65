-- ===== src/Book/Entry/Frame.antt =====
-- What `newOrder` (src/common/Book.cpp) leaves alone once the order has its identifier.
use eu_nex.Common.{◌≡◌, refl, ◌∙◌, arith}
use eu_nex.Types.{Side, buy, sell, Order}
use eu_nex.Book.Levels.{index_insert}
use eu_nex.Book.State.{Clock, Book, insert_at, insert_resting}
use eu_nex.Book.Matching.{match_buy, match_sell}
use eu_nex.Book.Entry.{match_order, rest_order, execute}

-- The stop orders, the phase and the next identifier.
abbrev pub Keeps : Book → Book → Type 0
Keeps b b' =
    (b'.stop_orders ≡ b.stop_orders) × (b'.phase ≡ b.phase) × (b'.next_order_id ≡ b.next_order_id)

match_order-Keeps :
    (s : Side) (clk : Clock) (b : Book) (o : Order) → Keeps b (match_order s clk b o).0
unfolding match_buy match_sell
match_order-Keeps buy clk b o = (refl, refl, refl)
match_order-Keeps sell clk b o = (refl, refl, refl)

insert_at-Keeps : (s : Side) (o : Order) (b : Book) → Keeps b (insert_at s o b)
insert_at-Keeps buy o b = (refl, refl, refl)
insert_at-Keeps sell o b = (refl, refl, refl)

pub insert_resting-Keeps : (o : Order) (b : Book) → Keeps b (insert_resting o b)
unfolding insert_resting
insert_resting-Keeps o b =
    insert_at-Keeps o.side o
      (record b { order_index = index_insert o.order_id o.side o.price b.order_index })

rest_order-Keeps : (b : Book) (o : Order) → Keeps b (rest_order b o).0
unfolding rest_order
rest_order-Keeps b o = grind (arith, insert_resting-Keeps)

pub execute-Keeps : (clk : Clock) (b : Book) (o : Order) → Keeps b (execute clk b o).0
unfolding execute
execute-Keeps clk b o =
    let (b1, o1, out1) = match_order o.side clk b o in
    let first = match_order-Keeps o.side clk b o in
    let second = rest_order-Keeps b1 o1 in
    (second.0 ∙ first.0, second.1 ∙ first.1, second.2 ∙ first.2)
