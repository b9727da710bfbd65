-- ===== src/Book/Auction/Trades.antt =====
-- The prices of the trades of the opening auction (`uncross` of src/common/Book.cpp).
use eu_nex.Common.{
  ℕ, ◌≡◌, refl, List, [], ◌∷◌, All, All-append, arith, Bool-cases, inl, inr, ◌==◌, if◌then◌else◌,
}
use eu_nex.Common.Int.{ℤ, pos, ltb_ℤ, leb_ℤ, eq_ℤ}
use eu_nex.Types.{Order}
use eu_nex.Book.Levels.{Levels, index_erase}
use eu_nex.Book.State.{Output, Clock, Book}
use eu_nex.Book.Sweep.{Fill, start_fill}
use eu_nex.Book.Sweep.Outputs.{OfTrade, sweep_levels-All_outputs}
use eu_nex.Book.Auction.{auction_outputs, cross_bids, cross_orders, cross_levels, uncross, get_iop}

-- A trade at this price.
abbrev pub AtPrice : ℤ → Output → Type 0
AtPrice p = OfTrade (λ t. t.price ≡ p)

auction_outputs-AtPrice :
    (clk : Clock) (symbol_idx : ℕ) (iop : ℤ) (g : Fill) (r : Order)
    → All (AtPrice iop) (auction_outputs clk symbol_idx iop g r)
unfolding auction_outputs
auction_outputs-AtPrice clk symbol_idx iop g r = ground arith

cross_bids-AtPrice :
    (clk : Clock) (iop : ℤ) (b : Book) (ask : Order)
    → All (AtPrice iop) (cross_bids clk iop b ask).2
unfolding cross_bids
cross_bids-AtPrice clk iop b ask =
    sweep_levels-All_outputs (auction_outputs clk b.symbol_idx) (λ o p. ltb_ℤ p iop) (λ q r. refl)
      (AtPrice iop) (λ o. Unit) (λ q r h. tt) (λ p. iop)
      (λ p g r h go. auction_outputs-AtPrice clk b.symbol_idx iop g r) (start_fill b ask) b.bids tt

cross_orders-AtPrice :
    (clk : Clock) (iop : ℤ) (b : Book) (asks : List Order)
    → All (AtPrice iop) (cross_orders clk iop b asks).2
unfolding cross_orders
cross_orders-AtPrice clk iop b [] = tt
cross_orders-AtPrice clk iop b (ask ∷ asks) =
    let (b1, ask1, out1) = cross_bids clk iop b ask in
    let index =
      if ask1.remaining_qty == 0
      then index_erase ask1.order_id b1.order_index
      else b1.order_index in
    let b2 = record b1 { order_index = index } in
    All-append (AtPrice iop) out1 (cross_orders clk iop b2 asks).2
      (cross_bids-AtPrice clk iop b ask) (cross_orders-AtPrice clk iop b2 asks)

cross_levels-AtPrice :
    (clk : Clock) (iop : ℤ) (b : Book) (ls : Levels)
    → All (AtPrice iop) (cross_levels clk iop b ls).2
unfolding cross_levels
cross_levels-AtPrice clk iop b [] = tt
cross_levels-AtPrice clk iop b (l ∷ ls) = elim (Bool-cases (leb_ℤ l.price iop)) [
  | inl low ↦
      let inner = cross_orders clk iop b l.orders in
      rw low (
        All-append (AtPrice iop) inner.2 (cross_levels clk iop inner.0 ls).2
          (cross_orders-AtPrice clk iop b l.orders) (cross_levels-AtPrice clk iop inner.0 ls))
  | inr high ↦ rw high tt
]

-- Every trade of the opening auction is made at the indicative opening price that the book had
-- before.
pub uncross-AtPrice : (clk : Clock) (b : Book) → All (AtPrice (get_iop b)) (uncross clk b).1
unfolding uncross
uncross-AtPrice clk b = elim (Bool-cases (eq_ℤ (get_iop b) (pos 0))) [
  | inl none_found ↦ rw none_found tt
  | inr found ↦ rw found (cross_levels-AtPrice clk (get_iop b) b b.asks)
]
