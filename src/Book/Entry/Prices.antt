-- ===== src/Book/Entry/Prices.antt =====
-- The prices of the trades of a new order (`newOrder` of src/common/Book.cpp).
use eu_nex.Common.{ℕ, ◌≡◌, refl, true, false, All, All-append, arith, ◌⊎◌}
use eu_nex.Common.Int.{ℤ, ◌≤ℤ◌}
use eu_nex.Types.{Side, buy, sell, Order, is_market}
use eu_nex.Book.Levels.{Levels}
use eu_nex.Book.State.{Output, Clock, Book}
use eu_nex.Book.Sweep.{Fill, start_fill}
use eu_nex.Book.Sweep.Outputs.{OfTrade, sweep_levels-All_outputs}
use eu_nex.Book.Matching.{blocked, match_outputs, match_levels, match_buy, match_sell}
use eu_nex.Book.Entry.{accept, take_order_id, match_order, rest_order, execute, new_order}
use eu_nex.Book.Entry.Branches.{new_order_cases}

-- The price is not worse than the limit of an order of this side.
abbrev pub NotWorse : Side → ℤ → ℤ → Type 0
NotWorse buy limit p = p ≤ℤ limit
NotWorse sell limit p = limit ≤ℤ p

-- A market order has no limit.
abbrev pub WithinLimit : Side → Order → Output → Type 0
WithinLimit s o = OfTrade (λ t. (is_market o.ord_type ≡ true) ⊎ NotWorse s o.price t.price)

unblocked :
    (s : Side) (o : Order) (p : ℤ)
    → blocked s o p ≡ false
    → (is_market o.ord_type ≡ true) ⊎ NotWorse s o.price p
unblocked buy o p h = ground arith
unblocked sell o p h = ground arith

-- The order has this type and this price.
abbrev pub HasLimit : Order → Order → Type 0
HasLimit o o' = (o'.ord_type ≡ o.ord_type) × (o'.price ≡ o.price)

match_outputs-WithinLimit :
    (s : Side) (clk : Clock) (symbol_idx : ℕ) (o : Order) (p : ℤ) (g : Fill) (r : Order)
    → HasLimit o g.incoming
    → blocked s g.incoming p ≡ false
    → All (WithinLimit s o) (match_outputs clk s symbol_idx p g r)
unfolding match_outputs
match_outputs-WithinLimit buy clk symbol_idx o p g r same go =
    (unblocked buy o p (rw (same.0, same.1) at go), (tt, tt))
match_outputs-WithinLimit sell clk symbol_idx o p g r same go =
    (unblocked sell o p (rw (same.0, same.1) at go), (tt, tt))

match_levels-WithinLimit :
    (s : Side) (clk : Clock) (b : Book) (o o' : Order) (ls : Levels)
    → HasLimit o o'
    → All (WithinLimit s o) (match_levels clk s b o' ls).2
unfolding match_levels
match_levels-WithinLimit buy clk b o o' ls h =
    sweep_levels-All_outputs (match_outputs clk buy b.symbol_idx) (blocked buy) (λ q r. refl)
      (WithinLimit buy o) (HasLimit o) (λ q r h. h) (λ p. p)
      (match_outputs-WithinLimit buy clk b.symbol_idx o) (start_fill b o') ls h
match_levels-WithinLimit sell clk b o o' ls h =
    sweep_levels-All_outputs (match_outputs clk sell b.symbol_idx) (blocked sell) (λ q r. refl)
      (WithinLimit sell o) (HasLimit o) (λ q r h. h) (λ p. p)
      (match_outputs-WithinLimit sell clk b.symbol_idx o) (start_fill b o') ls h

match_order-WithinLimit :
    (s : Side) (clk : Clock) (b : Book) (o o' : Order)
    → HasLimit o o'
    → All (WithinLimit s o) (match_order s clk b o').2
unfolding match_buy match_sell
match_order-WithinLimit buy clk b o o' h = match_levels-WithinLimit buy clk b o o' b.asks h
match_order-WithinLimit sell clk b o o' h = match_levels-WithinLimit sell clk b o o' b.bids h

rest_order-WithinLimit :
    (s : Side) (o : Order) (b : Book) (o' : Order) → All (WithinLimit s o) (rest_order b o').2
unfolding rest_order
rest_order-WithinLimit s o b o' = ground arith

-- Every trade of a new order that is no market order is made at the order's price or at a better
-- one: not above it for a buy, not below it for a sell.
pub new_order-WithinLimit :
    (clk : Clock) (b : Book) (o : Order) → All (WithinLimit o.side o) (new_order clk b o).2
unfolding accept execute
new_order-WithinLimit clk b o =
    new_order_cases (λ r. All (WithinLimit o.side o) r.2) clk b o (λ h. (tt, tt)) (λ h k. (tt, tt))
      (tt, tt)
      (λ h k e.
        let (b1, o1, out1) = match_order o.side clk (take_order_id b) (accept clk b o) in
        All-append (WithinLimit o.side o) out1 (rest_order b1 o1).2
          (match_order-WithinLimit o.side clk (take_order_id b) o (accept clk b o) (refl, refl))
          (rest_order-WithinLimit o.side o b1 o1))
