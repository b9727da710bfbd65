-- ===== src/Actors/AiTrader/Prices.antt =====
-- The prices that src/actors/AITraderActor.cpp computes, and that they stay in 64 bits.
use eu_nex.Common.{
  ap, ◌∙◌, sum_by, ◌+◌, ◌*◌, ◌^◌, ℕ, ◌≤◌, ◌<◌, ◌≡◌, true, List, [], ◌∷◌, arith, All, Bool-cases,
  inl, inr, length, ◌==◌, lookup, get_or,
}
use native.Mathlib.Nat.{div-eq-sub-div, div-le_of_le-mul}
use eu_nex.Common.Int.{
  add_i64, add_i64-eq, abs-add_i64, abs, pos_part, ℤ, pos, negsuc, ltb_ℤ, leb_ℤ, eq_ℤ,
}
use eu_nex.Actors.Events.{NewOrderEvent}
use eu_nex.Actors.AiTrader.{
  Bbo, Random, reference_price, tick_offset, div_ℤ, at_least_one, to_u64, mid_price, last_price,
  sum_prices,
}

-- A uniform distribution draws between its bounds.
abbrev pub InBounds : Random → Type 0
InBounds rnd =
    (lo hi : ℤ) (s : rnd.State)
    → leb_ℤ lo hi ≡ true
    → (leb_ℤ lo (rnd.between lo hi s).0 ≡ true) × (leb_ℤ (rnd.between lo hi s).0 hi ≡ true)

abbrev pub Positive : ℤ → Type 0
Positive p = ltb_ℤ (pos 0) p ≡ true

-- No more than 2^57 in size: 50 prices of this size can be summed in 64 bits.
abbrev pub IsModest : ℤ → Type 0
IsModest p = abs p ≤ 2 ^ 57

-- A price above 0 and at most 2^58, and between 5 and 100 shares.
abbrev pub IsSane : NewOrderEvent → Type 0
IsSane e = Positive e.price × (abs e.price ≤ 2 ^ 58) × (5 ≤ e.quantity) × (e.quantity ≤ 100)

abbrev pub IsOffer : ℤ → Type 0
IsOffer p = Positive p × (abs p ≤ 2 ^ 58)

abbrev pub SmallSpread : ℤ → Type 0
SmallSpread d = (leb_ℤ (negsuc 4) d ≡ true) × (leb_ℤ d (pos 5) ≡ true)

tick_offset-abs : (d : ℤ) → SmallSpread d → abs (tick_offset d) ≤ 5000000
tick_offset-abs (pos n) h = ground arith
tick_offset-abs (negsuc n) h = ground arith

at_least_one-IsOffer : (p : ℤ) → abs p ≤ 2 ^ 58 → IsOffer (at_least_one p)
at_least_one-IsOffer p h = ground arith

-- A price of a few ticks from a modest one is above 0 and not too large.
pub at_least_one-add_i64 :
    (mid d : ℤ)
    → IsModest mid
    → SmallSpread d
    → IsOffer (at_least_one (add_i64 mid (tick_offset d)))
at_least_one-add_i64 mid d h k =
    let small = tick_offset-abs d k in
    let sum = abs-add_i64 mid (tick_offset d) (omega arith) in
    at_least_one-IsOffer (add_i64 mid (tick_offset d)) (omega arith)

pub reference_price-IsModest : (s : ℕ) → IsModest (reference_price s)
unfolding reference_price
reference_price-IsModest s = ground arith

half-abs : (a : ℤ) → abs a ≤ 2 ^ 58 → IsModest (div_ℤ a 2)
half-abs (pos n) h = ground arith
half-abs (negsuc n) h = ground arith

abbrev pub IsModestBbo : Bbo → Type 0
IsModestBbo bbo = IsModest bbo.best_bid × IsModest bbo.best_ask

pub mid_price-IsModest :
    (bbo : Bbo) (fallback : ℤ)
    → IsModestBbo bbo
    → IsModest fallback
    → IsModest (mid_price bbo fallback)
mid_price-IsModest bbo fallback h k =
    let sum = abs-add_i64 bbo.best_bid bbo.best_ask (omega arith) in
    let half = half-abs (add_i64 bbo.best_bid bbo.best_ask) (omega arith) in
    elim (Bool-cases (eq_ℤ (div_ℤ (add_i64 bbo.best_bid bbo.best_ask) 2) (pos 0))) [
      | inl none_quoted ↦ rw none_quoted k
      | inr quoted ↦ rw quoted half
    ]

pub last_price-IsModest : (ps : List ℤ) → All IsModest ps → IsModest (last_price ps)
last_price-IsModest [] h = omega arith
last_price-IsModest (p ∷ []) h = h.0
last_price-IsModest (p ∷ q ∷ ps) h = last_price-IsModest (q ∷ ps) h.1

pub to_u64-small :
    (q : ℤ) (lo hi : ℕ)
    → leb_ℤ (pos lo) q ≡ true
    → leb_ℤ q (pos hi) ≡ true
    → hi ≤ 100
    → (lo ≤ to_u64 q) × (to_u64 q ≤ hi)
to_u64-small (pos n) lo hi h k le = ground arith
to_u64-small (negsuc n) lo hi h k le = ground arith

-- Without overflow, the sum is that of the prices, which are above 0.
pub sum_prices-eq :
    (a : ℕ) (ps : List ℤ)
    → All Positive ps
    → a + sum_by pos_part ps < 2 ^ 63
    → sum_prices (pos a) ps ≡ pos (a + sum_by pos_part ps)
sum_prices-eq a [] h room = ground arith
sum_prices-eq a (negsuc p ∷ ps) h room = ground arith
sum_prices-eq a (pos p ∷ ps) h room =
    let added = add_i64-eq (pos a) (pos p) (omega arith) in
    ap (λ s. sum_prices s ps) added
    ∙ sum_prices-eq (a + p) ps h.1 (omega arith)
    ∙ ap pos (omega arith)

pub sum_by-between :
    (ps : List ℤ)
    → All Positive ps
    → All IsModest ps
    → (length ps ≤ sum_by pos_part ps) × (sum_by pos_part ps ≤ length ps * 2 ^ 57)
sum_by-between [] h k = (omega arith, omega arith)
sum_by-between (negsuc p ∷ ps) h k = ground arith
sum_by-between (pos p ∷ ps) h k =
    let rest = sum_by-between ps h.1 k.1 in (ground arith, omega (arith, k.0))

pub mean_between :
    (s n : ℕ)
    → 0 < n
    → n ≤ s
    → s ≤ n * 2 ^ 57
    → Positive (div_ℤ (pos s) n) × (abs (div_ℤ (pos s) n) ≤ 2 ^ 58)
mean_between s n h k le =
    let next = div-eq-sub-div {m = n} {n = s} h k in
    let most = div-le_of_le-mul n le in (ground arith, omega (arith, most))

-- The histories hold prices above 0, no more than 50 of each symbol.
abbrev pub IsHistory : List ℤ → Type 0
IsHistory ps = All Positive ps × (length ps ≤ 50)

-- What all entries have, and the default too.
pub lookup-All {ℓ} :
    {A : Type ℓ} (P : A → Type 0) (s : ℕ) (m : List (ℕ × A)) (fallback : A)
    → All (λ e. P e.1) m
    → P fallback
    → P (get_or (lookup s m) fallback)
lookup-All P s [] fallback h k = k
lookup-All P s (e ∷ m) fallback h k = elim (Bool-cases (e.0 == s)) [
  | inl same ↦ rw same h.0
  | inr differ ↦ rw differ (lookup-All P s m fallback h.1 k)
]

pub lookup-IsHistory :
    (s : ℕ) (m : List (ℕ × List ℤ))
    → All (λ e. IsHistory e.1) m
    → IsHistory (get_or (lookup s m) [])
lookup-IsHistory s m h = lookup-All IsHistory s m [] h (tt, omega arith)

-- A history of prices that can be summed.
abbrev pub IsSummable : List ℤ → Type 0
IsSummable ps = IsHistory ps × All IsModest ps
