-- ===== src/Book/Auction/Crossing.antt =====
-- `uncross` of src/common/Book.cpp: how much the opening auction trades, and at which price.
use eu_nex.Common.{
  ℕ, ◌+◌, ◌-◌, min, ◌<◌, ◌≡◌, refl, inl, inr, Bool, true, not, List, [], ◌∷◌, arith, sum_by-append,
  if◌then◌else◌, ◌==◌, u64_mod, Bool-cases,
}
use eu_nex.Common.Int.{ℤ, pos, leb_ℤ, ltb_ℤ, eq_ℤ}
use eu_nex.Types.{Order, buy, sell}
use eu_nex.Book.Levels.{Levels, index_erase, before}
use eu_nex.Book.Levels.Sides.{IsSorted, AllPrices}
use eu_nex.Book.State.{Output, Clock, Book}
use eu_nex.Book.Sweep.{Fill, start_fill, traded_qty}
use eu_nex.Book.Sweep.Quantities.{
  orders_qty, levels_qty, traded_total, output_qty, reachable_qty, orders_qty-keep_order,
  levels_qty-keep_level, sweep_levels-incoming_qty, sweep_levels-levels_qty,
  sweep_levels-traded_total,
}
use eu_nex.Book.Sweep.Outputs.{sweep_levels-reachable_qty}
use eu_nex.Book.Auction.{
  auction_outputs, cross_bids, cross_orders, cross_levels, uncross, get_iop, volume_at,
}
use eu_nex.Book.Auction.Price.{qty_where, up_to, volume_at-eq}
use eu_nex.Book.Validity.{IsValid}

-- A bid below the opening price ends the search for bids; an ask above it ends the search for asks.
abbrev below : ℤ → ℤ → Bool
below iop p = ltb_ℤ p iop

abbrev above : ℤ → ℤ → Bool
above iop p = not (leb_ℤ p iop)

auction_outputs-traded_total :
    (clk : Clock) (symbol_idx : ℕ) (price : ℤ) (f : Fill) (r : Order)
    → traded_total (auction_outputs clk symbol_idx price f r) ≡ traded_qty f.incoming r
unfolding auction_outputs
auction_outputs-traded_total clk symbol_idx price f r = omega arith

module _ (clk : Clock) (iop : ℤ) where
  -- The bids within reach of the opening price.
  abbrev demand : Book → ℕ
  demand b = reachable_qty (below iop) b.bids

  -- `supply` is offered, `supply'` is left of it, and `q` of it has been traded.
  abbrev Crosses : ℕ → ℕ → Book → Book → List Output → Type 0
  Crosses supply supply' b b' out =
      (traded_total out ≡ min supply (demand b))
      × (supply' + traded_total out ≡ supply)
      × (demand b' ≡ demand b - supply)
      × (levels_qty b'.bids + traded_total out ≡ levels_qty b.bids)

  cross_bids-Crosses :
      (b : Book) (ask : Order)
      → let (b', ask', out) = cross_bids clk iop b ask in
        Crosses ask.remaining_qty ask'.remaining_qty b b' out
  unfolding cross_bids
  cross_bids-Crosses b ask =
      let emit = auction_outputs clk b.symbol_idx in
      let stop = λ (o : Order) (p : ℤ). ltb_ℤ p iop in
      let f = start_fill b ask in
      let left = sweep_levels-incoming_qty emit stop (λ q o. refl) (λ p. iop) f b.bids in
      let bids = sweep_levels-levels_qty emit stop (λ q o. refl) (λ p. iop) f b.bids in
      let reach = sweep_levels-reachable_qty emit stop (λ q o. refl) (λ p. iop) f b.bids in
      let trades =
        sweep_levels-traded_total emit stop (λ q o. refl) (λ p. iop)
          (auction_outputs-traded_total clk b.symbol_idx) f b.bids in
      (omega arith, omega arith, reach, omega arith)

  cross_orders-Crosses :
      (b : Book) (asks : List Order)
      → let (b', asks', out) = cross_orders clk iop b asks in
        Crosses (orders_qty asks) (orders_qty asks') b b' out
  unfolding cross_orders
  cross_orders-Crosses b [] = (omega arith, omega arith, omega arith, omega arith)
  cross_orders-Crosses b (ask ∷ asks) =
      let (b1, ask1, out1) = cross_bids clk iop b ask in
      let index =
        if ask1.remaining_qty == 0
        then index_erase ask1.order_id b1.order_index
        else b1.order_index in
      let rest = cross_orders clk iop (record b1 { order_index = index }) asks in
      let one = cross_bids-Crosses b ask in
      let others = cross_orders-Crosses (record b1 { order_index = index }) asks in
      let trades = sum_by-append output_qty out1 rest.2 in
      let kept = orders_qty-keep_order ask1 rest.1 in
      (omega arith, omega arith, omega arith, omega arith)

  -- The levels are crossed as far as the opening price.
  cross_levels-Crosses :
      (b : Book) (ls : Levels)
      → let (b', ls', out) = cross_levels clk iop b ls in
        (levels_qty ls' + traded_total out ≡ levels_qty ls)
        × (traded_total out ≡ min (reachable_qty (above iop) ls) (demand b))
        × (demand b' ≡ demand b - reachable_qty (above iop) ls)
        × (levels_qty b'.bids + traded_total out ≡ levels_qty b.bids)
  unfolding cross_levels reachable_qty
  cross_levels-Crosses b [] = (omega arith, omega arith, omega arith, omega arith)
  cross_levels-Crosses b (l ∷ ls) = elim (Bool-cases (leb_ℤ l.price iop)) [
    | inr beyond ↦ rw beyond (omega arith, omega arith, omega arith, omega arith)
    | inl within ↦
        let inner = cross_orders clk iop b l.orders in
        let rest = cross_levels clk iop inner.0 ls in
        let one = cross_orders-Crosses b l.orders in
        let others = cross_levels-Crosses inner.0 ls in
        let trades = sum_by-append output_qty inner.2 rest.2 in
        let kept = levels_qty-keep_level l inner.1 rest.1 in
        rw within (omega arith, omega arith, omega arith, omega arith)
  ]

-- In a map that is in order, the levels before the first that fails the test are those that pass.
none_from :
    (iop p : ℤ) (ls : Levels)
    → AllPrices (λ q. before buy p q ≡ true) ls
    → below iop p ≡ true
    → qty_where (leb_ℤ iop) ls ≡ 0
unfolding qty_where
none_from iop p [] h e = refl
none_from iop p (l ∷ ls) h e = ground (arith, none_from iop p ls h.1 e)

none_up_to :
    (iop p : ℤ) (ls : Levels)
    → AllPrices (λ q. before sell p q ≡ true) ls
    → above iop p ≡ true
    → qty_where (up_to iop) ls ≡ 0
unfolding qty_where
none_up_to iop p [] h e = refl
none_up_to iop p (l ∷ ls) h e = ground (arith, none_up_to iop p ls h.1 e)

reachable_bids :
    (iop : ℤ) (ls : Levels)
    → IsSorted buy ls
    → reachable_qty (below iop) ls ≡ qty_where (leb_ℤ iop) ls
unfolding reachable_qty qty_where
reachable_bids iop [] h = refl
reachable_bids iop (l ∷ ls) h =
    ground (arith, reachable_bids iop ls h.1, none_from iop l.price ls h.0)

reachable_asks :
    (iop : ℤ) (ls : Levels)
    → IsSorted sell ls
    → reachable_qty (above iop) ls ≡ qty_where (up_to iop) ls
unfolding reachable_qty qty_where
reachable_asks iop [] h = refl
reachable_asks iop (l ∷ ls) h =
    ground (arith, reachable_asks iop ls h.1, none_up_to iop l.price ls h.0)

-- The opening auction of a valid book with less than 2^64 on either side and an opening price
-- other than 0 trades exactly the volume that the price promises, and takes just that off either
-- side; with the opening price 0 it does nothing.
pub uncross-volume :
    (clk : Clock) (b : Book)
    → IsValid b
    → levels_qty b.bids < u64_mod
    → levels_qty b.asks < u64_mod
    → let (b', out) = uncross clk b in
      (traded_total out ≡ (if eq_ℤ (get_iop b) (pos 0) then 0 else volume_at b (get_iop b)))
      × (levels_qty b'.bids + traded_total out ≡ levels_qty b.bids)
      × (levels_qty b'.asks + traded_total out ≡ levels_qty b.asks)
unfolding uncross
uncross-volume clk b v h k =
    let iop = get_iop b in
    let crossed = cross_levels-Crosses clk iop b b.asks in
    let bids = reachable_bids iop b.bids v.bids.sorted in
    let asks = reachable_asks iop b.asks v.asks.sorted in
    let volume = volume_at-eq b iop h k in ground arith
