-- ===== src/Book/Queue/Openings.antt =====
-- `uncross` (src/common/Book.cpp) does to a book what the opening does to its queues.
use eu_nex.Common.{
  ◌≡◌, refl, sym, ap, ◌∙◌, subst, true, false, List, [], ◌∷◌, ◌++◌, arith, All, if◌then◌else◌,
  Bool-cases, inl, inr, ◌==◌, is_empty, append_assoc,
}
use eu_nex.Common.Int.{ℤ, pos, leb_ℤ, ltb_ℤ, eq_ℤ}
use eu_nex.Types.{buy, sell, Order}
use eu_nex.Book.Levels.{Levels, index_erase}
use eu_nex.Book.Levels.Sides.{NoneEmpty, SideIsValid}
use eu_nex.Book.State.{Output, Clock, Book}
use eu_nex.Book.Sweep.{start_fill, keep_order, resting_after}
use eu_nex.Book.Sweep.Sides.{sweep_levels-SideIsValid}
use eu_nex.Book.Auction.{auction_outputs, cross_bids, cross_orders, cross_levels, uncross, get_iop}
use eu_nex.Book.Validity.{IsValid}
use eu_nex.Book.Queue.{Market, Deal, opening_outputs, open_ask, open_asks, open_at, open_market}
use eu_nex.Book.Queue.Flat.{flat, Priced, flat-keep_level}
use eu_nex.Book.Queue.Deals.{sweep_levels-deal, keep_order-append}
use eu_nex.Book.Queue.Releases.{view_pair}
use eu_nex.Book.Queue.Entry.{view, Rests-Priced}
use eu_nex.Book.Queue.Prices.{FitsWords, get_iop-opening_price}

module _ (clk : Clock) (iop : ℤ) where
  abbrev BidsAreValid : Book → Type 0
  BidsAreValid b = SideIsValid buy b.bids

  abbrev opened : Market → Deal × List Order × List Output → Market × Order × List Output
  opened m t = (
    record m {
      bids = t.1;
      next_trade_id = t.0.next_trade_id;
      last_trade_price = t.0.last_trade_price;
    },
    t.0.incoming,
    t.2,
  )

  cross_bids-open_ask :
      (b : Book) (ask : Order)
      → BidsAreValid b
      → let (b1, ask1, out) = cross_bids clk iop b ask in
        (view b1, ask1, out) ≡ open_ask clk iop (view b) ask
  unfolding cross_bids open_ask opening_outputs auction_outputs resting_after view
  cross_bids-open_ask b ask v = ap (opened (view b)) (
      sym (
        sweep_levels-deal (auction_outputs clk b.symbol_idx) (opening_outputs clk b.symbol_idx)
          (λ p f r. refl) (λ p. iop) (λ o p. ltb_ℤ p iop) (λ x q p. refl) (start_fill b ask) b.bids
          v.none_empty (Rests-Priced buy b.bids v.resting)))

  cross_bids-valid :
      (b : Book) (ask : Order) → BidsAreValid b → BidsAreValid (cross_bids clk iop b ask).0
  unfolding cross_bids
  cross_bids-valid b ask v =
      sweep_levels-SideIsValid (auction_outputs clk b.symbol_idx) (λ p. iop) (λ o p. ltb_ℤ p iop)
        buy (start_fill b ask) b.bids v

  -- The book after one ask.
  abbrev crossed : Book → Order → Book
  crossed b ask =
      let (b1, ask1, out1) = cross_bids clk iop b ask in
      record b1 {
        order_index =
            if ask1.remaining_qty == 0
            then index_erase ask1.order_id b1.order_index
            else b1.order_index;
      }

  cross_orders-valid :
      (b : Book) (asks : List Order) → BidsAreValid b → BidsAreValid (cross_orders clk iop b asks).0
  unfolding cross_orders
  cross_orders-valid b [] v = v
  cross_orders-valid b (ask ∷ asks) v =
      cross_orders-valid (crossed b ask) asks (cross_bids-valid b ask v)

  -- The asks behind are opened after what the loop has done.
  abbrev then_open :
      Book × List Order × List Output → List Order → Market × List Order × List Output
  then_open t rs =
      let next = open_asks clk iop (view t.0) rs in (next.0, t.1 ++ next.1, t.2 ++ next.2)

  abbrev put :
      Market × Order × List Output
      → Market × List Order × List Output
      → Market × List Order × List Output
  put t r = (r.0, keep_order t.1 r.1, t.2 ++ r.2)

  abbrev go_on : List Order → Market × Order × List Output → Market × List Order × List Output
  go_on rs t = put t (open_asks clk iop t.0 rs)

  abbrev cross_view : Book × Order × List Output → Market × Order × List Output
  cross_view t = (view t.0, t.1, t.2)

  then_open-put :
      (ask : Order) (one : Book × Order × List Output) (t : Book × List Order × List Output)
      (rs : List Order)
      → put (cross_view one) (then_open t rs)
        ≡ then_open (t.0, keep_order one.1 t.1, one.2 ++ t.2) rs
  then_open-put ask one t rs =
      let next = open_asks clk iop (view t.0) rs in
      rw (keep_order-append one.1 t.1 next.1, append_assoc one.2 t.2 next.2) refl

  open_asks-step :
      (m : Market) (ask : Order) (rs : List Order)
      → leb_ℤ ask.price iop ≡ true
      → open_asks clk iop m (ask ∷ rs) ≡ go_on rs (open_ask clk iop m ask)
  unfolding open_asks
  open_asks-step m ask rs low = rw low refl

  cross_orders-open_asks :
      (b : Book) (p : ℤ) (asks rs : List Order)
      → BidsAreValid b
      → leb_ℤ p iop ≡ true
      → All (λ o. o.price ≡ p) asks
      → open_asks clk iop (view b) (asks ++ rs) ≡ then_open (cross_orders clk iop b asks) rs
  unfolding cross_orders view
  cross_orders-open_asks b p [] rs v low priced = refl
  cross_orders-open_asks b p (ask ∷ asks) rs v low priced =
      let here : leb_ℤ ask.price iop ≡ true = subst (λ q. leb_ℤ q iop ≡ true) (sym priced.0) low in
      let one = cross_bids clk iop b ask in
      let rest =
        cross_orders-open_asks (crossed b ask) p asks rs (cross_bids-valid b ask v) low priced.1 in
      open_asks-step (view b) ask (asks ++ rs) here
      ∙ ap (go_on (asks ++ rs)) (sym (cross_bids-open_ask b ask v))
      ∙ ap (put (cross_view one)) rest
      ∙ then_open-put ask one (cross_orders clk iop (crossed b ask) asks) rs

  open_asks-stop :
      (m : Market) (p : ℤ) (asks rs : List Order)
      → is_empty asks ≡ false
      → All (λ o. o.price ≡ p) asks
      → leb_ℤ p iop ≡ false
      → open_asks clk iop m (asks ++ rs) ≡ (m, asks ++ rs, [])
  unfolding open_asks
  open_asks-stop m p [] rs ne priced above = ground arith
  open_asks-stop m p (ask ∷ asks) rs ne priced above =
      let here : leb_ℤ ask.price iop ≡ false =
        subst (λ q. leb_ℤ q iop ≡ false) (sym priced.0) above in
      rw here refl

  abbrev levels_open : Book × Levels × List Output → Market × List Order × List Output
  levels_open t = (view t.0, flat t.1, t.2)

  -- The loop over the levels does to the queue of asks what opening it does.
  cross_levels-open_asks :
      (b : Book) (ls : Levels)
      → BidsAreValid b
      → NoneEmpty ls
      → Priced ls
      → open_asks clk iop (view b) (flat ls) ≡ levels_open (cross_levels clk iop b ls)
  unfolding cross_levels flat open_asks
  cross_levels-open_asks b [] v ne priced = refl
  cross_levels-open_asks b (l ∷ ls) v ne priced =
      let inner = cross_orders clk iop b l.orders in
      let next = cross_levels clk iop inner.0 ls in
      let rest =
        cross_levels-open_asks inner.0 ls (cross_orders-valid b l.orders v) ne.1 priced.1 in
      elim (Bool-cases (leb_ℤ l.price iop)) [
        | inl low ↦ rw low (
            cross_orders-open_asks b l.price l.orders (flat ls) v low priced.0
            ∙ ap (λ (t : Market × List Order × List Output). (t.0, inner.1 ++ t.1, inner.2 ++ t.2))
                rest
            ∙ ap (λ os. (view next.0, os, inner.2 ++ next.2))
                (sym (flat-keep_level l inner.1 next.1)))
        | inr above ↦
            rw above (open_asks-stop (view b) l.price l.orders (flat ls) ne.0 priced.0 above)
      ]

abbrev finish : Market × List Order × List Output → Market × List Output
finish (m, asks, out) = (record m { asks = asks }, out)

uncross-open_at :
    (clk : Clock) (b : Book)
    → IsValid b
    → view_pair (uncross clk b) ≡ open_at clk (get_iop b) (view b)
unfolding uncross view
uncross-open_at clk b v =
    let iop = get_iop b in
    let same =
      cross_levels-open_asks clk iop b b.asks v.bids v.asks.none_empty
        (Rests-Priced sell b.asks v.asks.resting) in
    elim (Bool-cases (eq_ℤ iop (pos 0))) [
      | inl none_found ↦ rw none_found refl
      | inr found ↦ rw found (ap finish (sym same))
    ]

-- The auction of a book is that of its queues.
pub uncross-open_market :
    (clk : Clock) (b : Book)
    → IsValid b
    → FitsWords b
    → view_pair (uncross clk b) ≡ open_market clk (view b)
unfolding open_market
uncross-open_market clk b v fits =
    uncross-open_at clk b v ∙ ap (λ p. open_at clk p (view b)) (get_iop-opening_price b v fits)
