-- ===== src/Book/Auction/Invariant.antt =====
-- `uncross` of src/common/Book.cpp: what it leaves alone, and the invariants that it keeps.
use eu_nex.Common.{
  ℕ, refl, ◌∙◌, List, [], ◌∷◌, All, All-mono, subst, sym, if◌then◌else◌, Bool-cases, inl, inr, ◌==◌,
}
use eu_nex.Common.Int.{ℤ, pos, leb_ℤ, eq_ℤ}
use eu_nex.Types.{Order}
use eu_nex.Book.Levels.{Levels, index_erase}
use eu_nex.Book.Levels.Index.{IsRising}
use eu_nex.Book.State.{Clock, Book}
use eu_nex.Book.Entry.Frame.{Keeps}
use eu_nex.Book.Auction.{cross_bids, cross_orders, cross_levels, uncross, get_iop}
use eu_nex.Book.Auction.Kept.{
  cross_levels-BidsFine, cross_levels-none, cross_levels-Indexed, cross_levels-SideIsValid,
  cross_levels-AllRising, ready_asks,
}
use eu_nex.Book.Validity.{IsValid, IsParked}
use eu_nex.Book.Indexed.{IsIndexed, IsApart}

cross_orders-Keeps :
    (clk : Clock) (iop : ℤ) (b : Book) (asks : List Order) → Keeps b (cross_orders clk iop b asks).0
unfolding cross_orders cross_bids
cross_orders-Keeps clk iop b [] = (refl, refl, refl)
cross_orders-Keeps clk iop b (ask ∷ asks) =
    let (b1, ask1, out1) = cross_bids clk iop b ask in
    let index =
      if ask1.remaining_qty == 0
      then index_erase ask1.order_id b1.order_index
      else b1.order_index in
    cross_orders-Keeps clk iop (record b1 { order_index = index }) asks

cross_levels-Keeps :
    (clk : Clock) (iop : ℤ) (b : Book) (ls : Levels) → Keeps b (cross_levels clk iop b ls).0
unfolding cross_levels
cross_levels-Keeps clk iop b [] = (refl, refl, refl)
cross_levels-Keeps clk iop b (l ∷ ls) =
    let first = cross_orders-Keeps clk iop b l.orders in
    let second = cross_levels-Keeps clk iop (cross_orders clk iop b l.orders).0 ls in
    let b2 = (cross_levels clk iop (cross_orders clk iop b l.orders).0 ls).0 in
    let both : Keeps b b2 = (second.0 ∙ first.0, second.1 ∙ first.1, second.2 ∙ first.2) in
    elim (Bool-cases (leb_ℤ l.price iop)) [
      | inl low ↦ rw low both
      | inr high ↦ rw high (refl, refl, refl)
    ]

-- The auction is not held when there is no price.
uncross-cases :
    (P : Book → Type 0) (clk : Clock) (b : Book)
    → P b
    → (let (b', ls, out) = cross_levels clk (get_iop b) b b.asks in P (record b' { asks = ls }))
    → P (uncross clk b).0
unfolding uncross
uncross-cases P clk b idle held = elim (Bool-cases (eq_ℤ (get_iop b) (pos 0))) [
  | inl e ↦ rw e idle
  | inr e ↦ rw e held
]

pub uncross-Keeps : (clk : Clock) (b : Book) → Keeps b (uncross clk b).0
uncross-Keeps clk b =
    uncross-cases (Keeps b) clk b (refl, refl, refl) (cross_levels-Keeps clk (get_iop b) b b.asks)

-- The opening auction keeps a valid book valid, when the table of the identifiers is exact.
pub uncross-IsValid :
    {n : ℕ} (clk : Clock) (b : Book) → IsValid b → IsIndexed n b → IsValid (uncross clk b).0
uncross-IsValid clk b v i =
    let iop = get_iop b in
    uncross-cases IsValid clk b v (record {
      bids = (cross_levels-BidsFine clk iop b b.asks (ready_asks b v i)).valid;
      asks = cross_levels-SideIsValid clk iop b b.asks v.asks;
      stops = subst (All IsParked) (sym (cross_levels-Keeps clk iop b b.asks).0) v.stops;
    })

-- The opening auction keeps the table of the identifiers exact.
pub uncross-IsIndexed :
    {n : ℕ} (clk : Clock) (b : Book) → IsValid b → IsIndexed n b → IsIndexed n (uncross clk b).0
uncross-IsIndexed {n} clk b v i =
    let iop = get_iop b in
    let ready = ready_asks b v i in
    let b1 = (cross_levels clk iop b b.asks).0 in
    let fine = cross_levels-BidsFine clk iop b b.asks ready in
    let same = sym (cross_levels-Keeps clk iop b b.asks).0 in
    uncross-cases (IsIndexed n) clk b i (record {
      bids = fine.indexed;
      asks = cross_levels-Indexed clk iop b b.asks ready;
      rising_bids = fine.rising;
      rising_asks = cross_levels-AllRising clk iop b b.asks i.rising_asks;
      keys = fine.keys;
      stops = subst (All (IsApart n b1.order_index)) same (
          All-mono (IsApart n b.order_index) (IsApart n b1.order_index)
            (λ o e. (e.0, cross_levels-none clk iop b b.asks o.order_id ready e.1)) b.stop_orders
            i.stops);
      rising_stops = subst IsRising same i.rising_stops;
    })
