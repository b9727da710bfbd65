-- ===== src/Book/Validity/Uncrossed.antt =====
-- In continuous trading `newOrder` of src/common/Book.cpp never leaves a bid at or above an ask.
use eu_nex.Common.{
  ℕ, ◌≡◌, refl, ◌≢◌, true, false, [], ◌∷◌, arith, All-mono, All-both, Bool-cases, inl, inr,
}
use eu_nex.Common.Int.{ℤ, ltb_ℤ}
use eu_nex.Types.{Side, buy, sell, Order, is_market, OrderStatus, partially_filled, new}
use eu_nex.Book.Levels.{Levels, index_insert, before}
use eu_nex.Book.Levels.Sides.{AllPrices, IsSorted, push_order-AllPrices}
use eu_nex.Book.State.{Clock, Book, insert_at, insert_resting}
use eu_nex.Book.Sweep.{start_fill}
use eu_nex.Book.Sweep.Sides.{sweep_levels-AllPrices}
use eu_nex.Book.Sweep.Quantities.{beyond, sweep_levels-emptied}
use eu_nex.Book.Matching.{blocked, match_outputs, match_levels, match_buy, match_sell}
use eu_nex.Book.Entry.{
  accept, take_order_id, opposite_levels, match_order, rest_order, execute, new_order, accumulates,
}
use eu_nex.Book.Entry.Branches.{new_order_cases}
use eu_nex.Book.Entry.Fills.{match_order-incoming}
use eu_nex.Book.Validity.{IsValid, IsUncrossed}

-- The side against which an order is matched.
abbrev opposite : Side → Side
opposite buy = sell
opposite sell = buy

blocked-before :
    (s : Side) (o : Order) (p q : ℤ)
    → blocked s o p ≡ true
    → before (opposite s) p q ≡ true
    → blocked s o q ≡ true
blocked-before buy o p q h k = ground arith
blocked-before sell o p q h k = ground arith

-- Behind a level beyond the limit all levels are.
beyond-blocked :
    (s : Side) (o : Order) (ls : Levels)
    → IsSorted (opposite s) ls
    → AllPrices (λ p. blocked s o p ≡ true) (beyond (blocked s o) ls)
unfolding beyond
beyond-blocked s o [] h = tt
beyond-blocked s o (l ∷ ls) h = elim (Bool-cases (blocked s o l.price)) [
  | inl stop ↦ rw stop (
    stop,
    All-mono (λ m. before (opposite s) l.price m.price ≡ true) (λ m. blocked s o m.price ≡ true)
        (λ m. blocked-before s o l.price m.price stop) ls h.0,
  )
  | inr go ↦ rw go (beyond-blocked s o ls h.1)
]

-- Matching takes levels away, and adds none.
match_order-IsUncrossed :
    (s : Side) (clk : Clock) (b : Book) (o : Order)
    → IsUncrossed b
    → IsUncrossed (match_order s clk b o).0
unfolding match_buy match_sell match_levels
match_order-IsUncrossed buy clk b o h =
    All-mono (λ l. AllPrices (λ q. ltb_ℤ l.price q ≡ true) b.asks)
      (λ l. AllPrices (λ q. ltb_ℤ l.price q ≡ true) (match_buy clk b o).0.asks)
      (λ l.
        sweep_levels-AllPrices (match_outputs clk buy b.symbol_idx) (λ p. p) (blocked buy)
          (λ q. ltb_ℤ l.price q ≡ true) (start_fill b o) b.asks)
      b.bids h
match_order-IsUncrossed sell clk b o h =
    sweep_levels-AllPrices (match_outputs clk sell b.symbol_idx) (λ p. p) (blocked sell)
      (λ p. AllPrices (λ q. ltb_ℤ p q ≡ true) b.asks) (start_fill b o) b.bids h

-- What an order leaves of the other side, if it is not filled, lies beyond its limit.
match_order-blocked :
    (s : Side) (clk : Clock) (b : Book) (o : Order)
    → IsValid b
    → (match_order s clk b o).1.remaining_qty ≢ 0
    → AllPrices (λ p. blocked s o p ≡ true) (opposite_levels s (match_order s clk b o).0)
unfolding match_buy match_sell match_levels
match_order-blocked buy clk b o v h =
    let rest =
      sweep_levels-emptied (match_outputs clk buy b.symbol_idx) (blocked buy) (λ q o. refl) (λ p. p)
        (start_fill b o) b.asks h in
    rw rest (beyond-blocked buy o b.asks v.asks.sorted)
match_order-blocked sell clk b o v h =
    let rest =
      sweep_levels-emptied (match_outputs clk sell b.symbol_idx) (blocked sell) (λ q o. refl)
        (λ p. p) (start_fill b o) b.bids h in
    rw rest (beyond-blocked sell o b.bids v.bids.sorted)

insert_at-IsUncrossed :
    (s : Side) (o : Order) (b : Book)
    → is_market o.ord_type ≡ false
    → AllPrices (λ p. blocked s o p ≡ true) (opposite_levels s b)
    → IsUncrossed b
    → IsUncrossed (insert_at s o b)
insert_at-IsUncrossed buy o b limit h k =
    push_order-AllPrices (λ p. AllPrices (λ q. ltb_ℤ p q ≡ true) b.asks) buy o b.bids
      (All-mono (λ m. blocked buy o m.price ≡ true) (λ m. ltb_ℤ o.price m.price ≡ true)
        (λ m e. ground arith) b.asks h)
      k
insert_at-IsUncrossed sell o b limit h k =
    All-mono (λ l. (blocked sell o l.price ≡ true) × AllPrices (λ q. ltb_ℤ l.price q ≡ true) b.asks)
      (λ l. AllPrices (λ q. ltb_ℤ l.price q ≡ true) (insert_at sell o b).asks)
      (λ l e. push_order-AllPrices (λ q. ltb_ℤ l.price q ≡ true) sell o b.asks (ground arith) e.1)
      b.bids
      (All-both (λ l. blocked sell o l.price ≡ true)
        (λ l. AllPrices (λ q. ltb_ℤ l.price q ≡ true) b.asks) b.bids h k)

blocked-cong :
    (s : Side) (o : Order) (rem : ℕ) (status : OrderStatus) (index : _) (b : Book)
    → AllPrices (λ p. blocked s o p ≡ true) (opposite_levels s b)
    → AllPrices
        (λ p. blocked s (record o { remaining_qty = rem; status = status }) p ≡ true)
        (opposite_levels s (record b { order_index = index }))
blocked-cong buy o rem status index b h = h
blocked-cong sell o rem status index b h = h

rest_order-IsUncrossed :
    (b : Book) (o : Order)
    → (o.remaining_qty ≢ 0 → AllPrices (λ p. blocked o.side o p ≡ true) (opposite_levels o.side b))
    → IsUncrossed b
    → IsUncrossed (rest_order b o).0
unfolding rest_order insert_resting
rest_order-IsUncrossed b o h k =
    let index = index_insert o.order_id o.side o.price b.order_index in
    let b1 = record b { order_index = index } in
    let inserted =
      λ (status : OrderStatus) (e : o.remaining_qty ≢ 0) (limit : is_market o.ord_type ≡ false).
        insert_at-IsUncrossed o.side (record o { status = status }) b1 limit
          (blocked-cong o.side o o.remaining_qty status index b (h e)) k in
    ground (arith, inserted partially_filled, inserted new)

execute-IsUncrossed :
    (clk : Clock) (b : Book) (o : Order)
    → IsValid b
    → IsUncrossed b
    → IsUncrossed (execute clk b o).0
unfolding execute
execute-IsUncrossed clk b o v h =
    let (b1, o1, out1) = match_order o.side clk b o in
    let same = match_order-incoming o.side clk b o in
    rest_order-IsUncrossed b1 o1
      (λ e. rw same (
        blocked-cong o.side o o1.remaining_qty o.status b1.order_index b1
          (match_order-blocked o.side clk b o v e)))
      (match_order-IsUncrossed o.side clk b o h)

-- Unless the phase only accumulates orders, a new order of any kind leaves no bid at or above an
-- ask, if the book was valid and had none before.
pub new_order-IsUncrossed :
    (clk : Clock) (b : Book) (o : Order)
    → accumulates b.phase ≡ false
    → IsValid b
    → IsUncrossed b
    → IsUncrossed (new_order clk b o).0
new_order-IsUncrossed clk b o phase v h =
    new_order_cases (λ r. IsUncrossed r.0) clk b o (λ _. h) (λ _ e. cc) h
      (λ _ _ _.
        execute-IsUncrossed clk (take_order_id b) (accept clk b o)
          (record { bids = v.bids; asks = v.asks; stops = v.stops }) h)
