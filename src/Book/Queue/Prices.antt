-- ===== src/Book/Queue/Prices.antt =====
-- The opening price of a book (`getIOP` of src/common/Book.cpp) is that of its queues.
use eu_nex.Common.{
  ◌+◌, ◌<◌, ◌≡◌, refl, sym, ap, ◌∙◌, Bool, false, List, [], ◌∷◌, ◌++◌, arith, All, if◌then◌else◌,
  is_empty, map, append-nil, map-append, append_assoc, u64_mod,
}
use eu_nex.Common.Int.{ℤ, leb_ℤ}
use eu_nex.Types.{Order}
use eu_nex.Book.Levels.{Level, Levels}
use eu_nex.Book.Levels.Sides.{NoneEmpty}
use eu_nex.Types.{buy, sell}
use eu_nex.Book.State.{Book}
use eu_nex.Book.Sweep.Quantities.{levels_qty, orders_qty}
use eu_nex.Book.Auction.{
  insert_price, sort_prices, candidate_prices, cum_buy, cum_sell, Best, volume_at, surplus_at,
  improves, best_of, no_price, get_iop,
}
use eu_nex.Book.Auction.Price.{qty_where, cumulate-eq}
use eu_nex.Book.Validity.{IsValid}
use eu_nex.Book.Queue.{
  qty_of, demand_at, supply_at, quote, is_better, best_quote, prices, opening_price,
}
use eu_nex.Book.Queue.Flat.{flat, Priced}
use eu_nex.Book.Queue.Entry.{view, Rests-Priced}

insert_price-twice : (p : ℤ) (qs : List ℤ) → insert_price p (insert_price p qs) ≡ insert_price p qs
unfolding insert_price
insert_price-twice p [] = ground arith
insert_price-twice p (q ∷ qs) = ground (arith, insert_price-twice p qs)

-- A price that comes several times counts once.
sort_prices-level :
    (p : ℤ) (os : List Order) (rest : List ℤ)
    → is_empty os ≡ false
    → All (λ o. o.price ≡ p) os
    → sort_prices (prices os ++ rest) ≡ insert_price p (sort_prices rest)
unfolding sort_prices
sort_prices-level p [] rest ne priced = ground arith
sort_prices-level p (o ∷ []) rest ne priced = ap (λ q. insert_price q (sort_prices rest)) priced.0
sort_prices-level p (o ∷ x ∷ os) rest ne priced =
    ap (λ q. insert_price q (sort_prices (prices (x ∷ os) ++ rest))) priced.0
    ∙ ap (insert_price p) (sort_prices-level p (x ∷ os) rest refl priced.1)
    ∙ insert_price-twice p (sort_prices rest)

sort_prices-flat :
    (ls : Levels) (xs ys : List ℤ)
    → NoneEmpty ls
    → Priced ls
    → sort_prices xs ≡ sort_prices ys
    → sort_prices (map (λ (l : Level). l.price) ls ++ xs) ≡ sort_prices (prices (flat ls) ++ ys)
unfolding sort_prices flat
sort_prices-flat [] xs ys ne priced same = same
sort_prices-flat (l ∷ ls) xs ys ne priced same =
    ap (insert_price l.price) (sort_prices-flat ls xs ys ne.1 priced.1 same)
    ∙ sym (sort_prices-level l.price l.orders (prices (flat ls) ++ ys) ne.0 priced.0)
    ∙ ap sort_prices (
        sym (append_assoc (prices l.orders) (prices (flat ls)) ys)
        ∙ ap (λ t. t ++ ys) (sym (map-append (λ (o : Order). o.price) l.orders (flat ls))))

qty_of-level :
    (test : ℤ → Bool) (p : ℤ) (os rs : List Order)
    → All (λ o. o.price ≡ p) os
    → qty_of test (os ++ rs) ≡ (if test p then orders_qty os else 0) + qty_of test rs
unfolding qty_of
qty_of-level test p [] rs priced = ground arith
qty_of-level test p (o ∷ os) rs priced =
    let here : test o.price ≡ test p = ap test priced.0 in
    ground (arith, qty_of-level test p os rs priced.1)

qty_of-nil : (test : ℤ → Bool) → qty_of test [] ≡ 0
unfolding qty_of
qty_of-nil test = refl

qty_where-flat :
    (test : ℤ → Bool) (ls : Levels) → Priced ls → qty_of test (flat ls) ≡ qty_where test ls
unfolding qty_where flat
qty_where-flat test [] priced = qty_of-nil test
qty_where-flat test (l ∷ ls) priced =
    qty_of-level test l.price l.orders (flat ls) priced.0
    ∙ ap (λ n. (if test l.price then orders_qty l.orders else 0) + n)
        (qty_where-flat test ls priced.1)

-- Less than 2^64 rests on either side.
abbrev pub FitsWords : Book → Type 0
FitsWords b = (levels_qty b.bids < u64_mod) × (levels_qty b.asks < u64_mod)

cum_buy-demand_at :
    (b : Book) (p : ℤ) → IsValid b → FitsWords b → cum_buy b p ≡ demand_at (view b) p
unfolding cum_buy view
cum_buy-demand_at b p v fits =
    cumulate-eq (leb_ℤ p) 0 b.bids (omega (arith, fits.0))
    ∙ omega (arith, qty_where-flat (leb_ℤ p) b.bids (Rests-Priced buy b.bids v.bids.resting))

cum_sell-supply_at :
    (b : Book) (p : ℤ) → IsValid b → FitsWords b → cum_sell b p ≡ supply_at (view b) p
unfolding cum_sell view
cum_sell-supply_at b p v fits =
    cumulate-eq (λ q. leb_ℤ q p) 0 b.asks (omega (arith, fits.1))
    ∙ omega
        (arith, qty_where-flat (λ q. leb_ℤ q p) b.asks (Rests-Priced sell b.asks v.asks.resting))

best_of-best_quote :
    (b : Book) (best : Best) (ps : List ℤ)
    → IsValid b
    → FitsWords b
    → best_of b best ps ≡ best_quote (view b) best ps
unfolding best_of best_quote improves is_better volume_at surplus_at
best_of-best_quote b best [] v fits = refl
best_of-best_quote b best (p ∷ ps) v fits =
    let next = if is_better (view b) best p then quote (view b) p else best in
    rw (cum_buy-demand_at b p v fits, cum_sell-supply_at b p v fits)
      (best_of-best_quote b next ps v fits)

append_is_empty : (os rs : List Order) → is_empty os ≡ false → is_empty (os ++ rs) ≡ false
append_is_empty [] rs ne = ground arith
append_is_empty (o ∷ os) rs ne = refl

flat-is_empty : (ls : Levels) → NoneEmpty ls → is_empty (flat ls) ≡ is_empty ls
unfolding flat
flat-is_empty [] ne = refl
flat-is_empty (l ∷ ls) ne = append_is_empty l.orders (flat ls) ne.0

candidate_prices-flat :
    (b : Book)
    → IsValid b
    → candidate_prices b ≡ sort_prices (prices (flat b.bids) ++ prices (flat b.asks))
unfolding candidate_prices
candidate_prices-flat b v =
    let asks =
      sort_prices-flat b.asks [] [] v.asks.none_empty (Rests-Priced sell b.asks v.asks.resting)
        refl in
    sort_prices-flat b.bids (map (λ (l : Level). l.price) b.asks) (prices (flat b.asks))
      v.bids.none_empty (Rests-Priced buy b.bids v.bids.resting)
      (ap sort_prices (sym (append-nil (map (λ (l : Level). l.price) b.asks)))
        ∙ asks
        ∙ ap sort_prices (append-nil (prices (flat b.asks))))

-- The indicative opening price of a valid book.
pub get_iop-opening_price :
    (b : Book) → IsValid b → FitsWords b → get_iop b ≡ opening_price (view b)
unfolding get_iop opening_price view
get_iop-opening_price b v fits =
    rw
      (
        candidate_prices-flat b v,
        best_of-best_quote b no_price (sort_prices (prices (flat b.bids) ++ prices (flat b.asks))) v
            fits,
        flat-is_empty b.bids v.bids.none_empty,
        flat-is_empty b.asks v.asks.none_empty,
      )
      refl
