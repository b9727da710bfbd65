-- ===== src/Book/Auction/Price.antt =====
-- `getIOP` of src/common/Book.cpp: the price that it finds maximises the volume.
use eu_nex.Common.{
  ℕ, ◌+◌, min, ◌≤◌, ◌<◌, ◌≡◌, refl, sym, subst, ◌⊎◌, inl, inr, Bool, true, ◌||◌, List, [], ◌∷◌,
  ◌++◌, map, arith, All, if◌then◌else◌, is_empty, Bool-cases, u64_mod,
}
use eu_nex.Common.Int.{ℤ, ◌≤ℤ◌, leb_ℤ, eq_ℤ, eq_ℤ→eq}
use eu_nex.Book.Levels.{Level, Levels}
use eu_nex.Book.Levels.Sides.{AllPrices}
use eu_nex.Book.State.{Book}
use eu_nex.Book.Sweep.Quantities.{orders_qty, levels_qty}
use eu_nex.Book.Entry.Fok.{add_remaining-eq}
use eu_nex.Book.Auction.{
  insert_price, sort_prices, candidate_prices, cumulate, cum_buy, cum_sell, Best, volume_at,
  surplus_at, improves, best_of, no_price, get_iop,
}

-- The quantity at the levels whose price passes the test, as a number without bound.
unfoldable pub qty_where : (ℤ → Bool) → Levels → ℕ
qty_where test [] = 0
qty_where test (l ∷ ls) = (if test l.price then orders_qty l.orders else 0) + qty_where test ls

qty_where-le : (test : ℤ → Bool) (ls : Levels) → qty_where test ls ≤ levels_qty ls
unfolding qty_where
qty_where-le test [] = omega arith
qty_where-le test (l ∷ ls) = ground (arith, qty_where-le test ls)

pub cumulate-eq :
    (test : ℤ → Bool) (acc : ℕ) (ls : Levels)
    → acc + levels_qty ls < u64_mod
    → cumulate test acc ls ≡ acc + qty_where test ls
unfolding cumulate qty_where
cumulate-eq test acc [] h = omega arith
cumulate-eq test acc (l ∷ ls) h = ground (
  arith,
  add_remaining-eq acc l.orders,
  cumulate-eq test acc ls,
  cumulate-eq test (acc + orders_qty l.orders) ls,
)

qty_where_mono :
    (s t : ℤ → Bool) (ls : Levels)
    → ((p : ℤ) → s p ≡ true → t p ≡ true)
    → qty_where s ls ≤ qty_where t ls
unfolding qty_where
qty_where_mono s t [] h = omega arith
qty_where_mono s t (l ∷ ls) h = ground (arith, h l.price, qty_where_mono s t ls h)

abbrev pub up_to : ℤ → ℤ → Bool
up_to p q = leb_ℤ q p

up_to_mono : (p q : ℤ) (ls : Levels) → p ≤ℤ q → qty_where (up_to p) ls ≤ qty_where (up_to q) ls
up_to_mono p q ls h = qty_where_mono (up_to p) (up_to q) ls (λ r e. ground arith)

from_mono : (p q : ℤ) (ls : Levels) → q ≤ℤ p → qty_where (leb_ℤ p) ls ≤ qty_where (leb_ℤ q) ls
from_mono p q ls h = qty_where_mono (leb_ℤ p) (leb_ℤ q) ls (λ r e. ground arith)

-- What rests up to a price rests up to a price of a level that is no higher.
abbrev Reached : (ℤ → Type 0) → ℤ → Levels → Type 0
Reached G p ls =
    (qty_where (up_to p) ls ≡ 0)
    ⊎ ((q : ℤ) × G q × (q ≤ℤ p) × (qty_where (up_to p) ls ≤ qty_where (up_to q) ls))

reach_level : (G : ℤ → Type 0) (p : ℤ) (ls : Levels) → AllPrices G ls → Reached G p ls
unfolding qty_where
reach_level G p [] h = inl refl
reach_level G p (l ∷ ls) h = elim (Bool-cases (leb_ℤ l.price p)) [
  | inr above ↦ elim (reach_level G p ls h.1) [
    | inl e ↦ inl (ground arith)
    | inr (q, g, le, more) ↦ inr (q, g, le, ground arith)
  ]
  | inl within ↦ elim (reach_level G p ls h.1) [
    | inl e ↦ inr (l.price, h.0, ground arith, ground arith)
    | inr (q, g, le, more) ↦ elim (Bool-cases (leb_ℤ l.price q)) [
      | inl lower ↦ inr (q, g, le, ground arith)
      | inr higher ↦
          inr (l.price, h.0, ground arith, ground (arith, up_to_mono q l.price ls (ground arith)))
    ]
  ]
]

insert_same : (p q : ℤ) (qs : List ℤ) → eq_ℤ p q ≡ true → insert_price p (q ∷ qs) ≡ q ∷ qs
unfolding insert_price
insert_same p q qs h = ground arith

insert_price-All :
    (P : ℤ → Type 0) (p : ℤ) (qs : List ℤ) → All P (insert_price p qs) → P p × All P qs
unfolding insert_price
insert_price-All P p [] h = h
insert_price-All P p (q ∷ qs) h = elim (Bool-cases (eq_ℤ p q)) [
  | inl same ↦
      let kept : P q × All P qs = subst (All P) (insert_same p q qs same) h in
      (subst P (sym (eq_ℤ→eq p q same)) kept.0, kept)
  | inr other ↦ ground (arith, insert_price-All P p qs)
]

sort_prices-All : (P : ℤ → Type 0) (ps : List ℤ) → All P (sort_prices ps) → All P ps
unfolding sort_prices
sort_prices-All P [] h = tt
sort_prices-All P (p ∷ ps) h =
    let both = insert_price-All P p (sort_prices ps) h in (both.0, sort_prices-All P ps both.1)

prices-All :
    (P : ℤ → Type 0) (bids asks : Levels)
    → All P (map (λ (l : Level). l.price) bids ++ map (λ (l : Level). l.price) asks)
    → AllPrices P asks
prices-All P [] [] h = tt
prices-All P [] (l ∷ asks) h = (h.0, prices-All P [] asks h.1)
prices-All P (l ∷ bids) asks h = prices-All P bids asks h.1

-- One round of the loop.
abbrev next_best : Book → Best → ℤ → Best
next_best b best p =
    if improves b best p
    then record { price = p; volume = volume_at b p; surplus = surplus_at b p }
    else best

next_best-max :
    (b : Book) (best : Best) (p : ℤ)
    → let r = next_best b best p in (best.volume ≤ r.volume) × (volume_at b p ≤ r.volume)
unfolding improves
next_best-max b best p = ground arith

next_best-volume :
    (b : Book) (best : Best) (p : ℤ)
    → (best.volume ≡ 0) ⊎ (best.volume ≡ volume_at b best.price)
    → let r = next_best b best p in (r.volume ≡ 0) ⊎ (r.volume ≡ volume_at b r.price)
next_best-volume b best p h = elim (Bool-cases (improves b best p)) [
  | inl e ↦ rw e (inr refl)
  | inr e ↦ rw e h
]

-- The volume of the best price so far only grows, and no price of the list has more.
best_of-max :
    (b : Book) (best : Best) (ps : List ℤ)
    → let r = best_of b best ps in (best.volume ≤ r.volume) × All (λ p. volume_at b p ≤ r.volume) ps
unfolding best_of
best_of-max b best [] = (omega arith, tt)
best_of-max b best (p ∷ ps) =
    let step = next_best-max b best p in
    let rest = best_of-max b (next_best b best p) ps in (omega arith, (omega arith, rest.1))

-- The volume that is kept is that of the price that is kept.
best_of-volume :
    (b : Book) (best : Best) (ps : List ℤ)
    → (best.volume ≡ 0) ⊎ (best.volume ≡ volume_at b best.price)
    → let r = best_of b best ps in (r.volume ≡ 0) ⊎ (r.volume ≡ volume_at b r.price)
unfolding best_of
best_of-volume b best [] h = h
best_of-volume b best (p ∷ ps) h =
    best_of-volume b (next_best b best p) ps (next_best-volume b best p h)

pub volume_at-eq :
    (b : Book) (p : ℤ)
    → levels_qty b.bids < u64_mod
    → levels_qty b.asks < u64_mod
    → volume_at b p ≡ min (qty_where (leb_ℤ p) b.bids) (qty_where (up_to p) b.asks)
unfolding volume_at cum_buy cum_sell
volume_at-eq b p h k =
    let buys = cumulate-eq (leb_ℤ p) 0 b.bids (omega arith) in
    let sells = cumulate-eq (up_to p) 0 b.asks (omega arith) in omega arith

-- No price at all has a larger volume than the best of the candidates.
volume_at-le :
    (b : Book) (most : ℕ) (p : ℤ)
    → levels_qty b.bids < u64_mod
    → levels_qty b.asks < u64_mod
    → All (λ q. volume_at b q ≤ most) (candidate_prices b)
    → volume_at b p ≤ most
unfolding candidate_prices
volume_at-le b most p h k all =
    let at_asks =
      prices-All (λ q. volume_at b q ≤ most) b.bids b.asks
        (sort_prices-All (λ q. volume_at b q ≤ most) _ all) in
    elim (reach_level (λ q. volume_at b q ≤ most) p b.asks at_asks) [
      | inl nothing ↦ omega (arith, volume_at-eq b p h k)
      | inr (q, bound, le, more) ↦
          omega (arith, volume_at-eq b p h k, volume_at-eq b q h k, from_mono p q b.bids le)
    ]

no_volume : (b : Book) (p : ℤ) → is_empty b.bids || is_empty b.asks ≡ true → volume_at b p ≡ 0
unfolding volume_at cum_buy cum_sell cumulate
no_volume b p h = ground arith

-- With less than 2^64 on either side, no price executes more than the indicative opening price.
pub get_iop-max :
    (b : Book) (p : ℤ)
    → levels_qty b.bids < u64_mod
    → levels_qty b.asks < u64_mod
    → volume_at b p ≤ volume_at b (get_iop b)
unfolding get_iop
get_iop-max b p h k =
    let best = best_of b no_price (candidate_prices b) in
    let max = best_of-max b no_price (candidate_prices b) in
    let kept = best_of-volume b no_price (candidate_prices b) (inl refl) in
    let bound = volume_at-le b best.volume p h k max.1 in ground (arith, no_volume b p)
