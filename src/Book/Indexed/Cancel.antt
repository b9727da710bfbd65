-- ===== src/Book/Indexed/Cancel.antt =====
-- `cancelOrder` of src/common/Book.cpp finds exactly the orders that are on the book, and what it
-- cancels is gone.
use eu_nex.Common.{
  OnSome, OnSome-some, ℕ, ◌<◌, ◌≡◌, refl, subst, ==_iff, ◌≢◌, ◌↔◌, false, List, [], ◌∷◌, Option,
  none, some, arith, All, All-mono, ◌==◌, ◌>>=◌, or_else, Bool-cases, Option-cases, inl, inr,
}
use eu_nex.Common.Int.{ℤ, eq_ℤ, eq_ℤ→eq}
use eu_nex.Types.{Side, buy, sell, Order, ExecutionReport}
use eu_nex.Book.Levels.{Level, Levels, Index, index_find, index_erase}
use eu_nex.Book.Levels.Sides.{IsSorted, keep_level-All}
use eu_nex.Book.Levels.Index.{
  Mapped, Indexed, IsRising, AllRising, Without, AllWithout, Without-elsewhere, AllWithout-behind,
  AllWithout-other, AllWithout-none,
}
use eu_nex.Book.State.{Book}
use eu_nex.Book.Cancel.{
  take_order, cancel_stop_order, take_at, cancel_resting, cancel_order, levels_of, set_levels,
}
use eu_nex.Book.Validity.{IsValid}
use eu_nex.Book.Validity.Cancel.{take_order-All}
use eu_nex.Book.Indexed.{IsIndexed, IsApart}

-- No order on the book has this identifier.
abbrev pub IsAbsent : ℕ → Book → Type 0
IsAbsent id b = Without id b.stop_orders × AllWithout id b.bids × AllWithout id b.asks

-- A chain whose second step cannot fail fails in the first.
taken_none {ℓ κ} :
    {A : Type ℓ} {B : Type κ} (t : Option A) (f : A → B) → (t >>= λ a. some (f a)) ≡ none → t ≡ none
taken_none none f h = refl
taken_none (some a) f h = cc

pub take_order-none : (id : ℕ) (os : List Order) → take_order id os ≡ none → Without id os
unfolding take_order
take_order-none id [] h = tt
take_order-none id (o ∷ os) h = elim (Option-cases (take_order id os)) [
  | inl e ↦ ground (arith, take_order-none id os e)
  | inr (r, e) ↦ ground arith
]

pub take_order-Without : (id : ℕ) (os : List Order) → Without id os → take_order id os ≡ none
unfolding take_order
take_order-Without id [] h = refl
take_order-Without id (o ∷ os) h = ground (arith, take_order-Without id os h.1)

Rising-Without : (k : ℕ) (os : List Order) → All (λ r. k < r.order_id) os → Without k os
Rising-Without k os = All-mono (λ r. k < r.order_id) (λ o. o.order_id ≢ k) (λ o e. omega arith) os

-- Identifiers that rise are distinct: one is taken, and none is left.
pub take_order-removes :
    (id : ℕ) (os : List Order) → IsRising os → OnSome (λ r. Without id r.1) (take_order id os)
unfolding take_order
take_order-removes id [] h = tt
take_order-removes id (o ∷ os) h = elim (Bool-cases (o.order_id == id)) [
  | inl here ↦ rw here (
      Rising-Without id os
        (subst (λ k. All (λ r. k < r.order_id) os) ((==_iff o.order_id id).0 here) h.0))
  | inr other ↦ elim (Option-cases (take_order id os)) [
    | inl e ↦ rw (other, e) tt
    | inr (r, e) ↦ rw (other, e) (ground arith, OnSome-some _ _ (take_order-removes id os h.1) e)
  ]
]

pub take_order-IsRising :
    (id : ℕ) (os : List Order) → IsRising os → OnSome (λ r. IsRising r.1) (take_order id os)
unfolding take_order
take_order-IsRising id [] h = tt
take_order-IsRising id (o ∷ os) h = ground (
  arith,
  take_order-IsRising id os h.1,
  take_order-All (λ (r : Order). o.order_id < r.order_id) id os h.0,
)

module _ (s : Side) (m : Index) (id : ℕ) (p : ℤ) (there : index_find id m ≡ some (s, p)) where
  -- An order that is mapped to a price is at no level with another price.
  Without-at :
      (l : Level) → eq_ℤ p l.price ≡ false → All (Mapped s m l.price) l.orders → Without id l.orders
  Without-at l other i = Without-elsewhere s l.price id m l.orders (λ e. grind (arith, there)) i

  take_at-none :
      (ls : Levels) → IsSorted s ls → Indexed s m ls → take_at id p ls ≡ none → AllWithout id ls
  unfolding take_at
  take_at-none [] sorted i h = tt
  take_at-none (l ∷ ls) sorted i h = elim (Bool-cases (eq_ℤ p l.price)) [
    | inl here ↦
        let at_p = eq_ℤ→eq p l.price here in
        (
          take_order-none id l.orders (taken_none (take_order id l.orders) _ (rw here at h)),
          AllWithout-behind s l.price id m ls (ground arith) sorted.0 i.1,
        )
    | inr other ↦ (
      Without-at l other i.0,
      take_at-none ls sorted.1 i.1 (taken_none (take_at id p ls) _ (rw other at h)),
    )
  ]

  take_at-removes :
      (ls : Levels)
      → IsSorted s ls
      → AllRising ls
      → Indexed s m ls
      → OnSome (λ r. AllWithout id r.1) (take_at id p ls)
  unfolding take_at
  take_at-removes [] sorted rising i = tt
  take_at-removes (l ∷ ls) sorted rising i = elim (Bool-cases (eq_ℤ p l.price)) [
    | inl here ↦ elim (Option-cases (take_order id l.orders)) [
      | inl e ↦ rw (here, e) tt
      | inr (r, e) ↦
          let at_p = eq_ℤ→eq p l.price here in
          rw (here, e)
            (keep_level-All (λ n. Without id n.orders) l r.1 ls
              (OnSome-some _ _ (take_order-removes id l.orders rising.0) e)
              (AllWithout-behind s l.price id m ls (ground arith) sorted.0 i.1))
    ]
    | inr other ↦ elim (Option-cases (take_at id p ls)) [
      | inl e ↦ rw (other, e) tt
      | inr (r, e) ↦
          rw (other, e)
            (Without-at l other i.0, OnSome-some _ _ (take_at-removes ls sorted.1 rising.1 i.1) e)
    ]
  ]

pub take_at-Without : (id : ℕ) (p : ℤ) (ls : Levels) → AllWithout id ls → take_at id p ls ≡ none
unfolding take_at
take_at-Without id p [] h = refl
take_at-Without id p (l ∷ ls) h =
    ground (arith, take_order-Without id l.orders h.0, take_at-Without id p ls h.1)

pub levels_of-IsSorted : (s : Side) (b : Book) → IsValid b → IsSorted s (levels_of s b)
levels_of-IsSorted buy b v = v.bids.sorted
levels_of-IsSorted sell b v = v.asks.sorted

pub levels_of-Indexed :
    {n : ℕ} (s : Side) (b : Book) → IsIndexed n b → Indexed s b.order_index (levels_of s b)
levels_of-Indexed buy b i = i.bids
levels_of-Indexed sell b i = i.asks

pub levels_of-rising : {n : ℕ} (s : Side) (b : Book) → IsIndexed n b → AllRising (levels_of s b)
levels_of-rising buy b i = i.rising_bids
levels_of-rising sell b i = i.rising_asks

-- An order that is on no level of the side that it is mapped to is on no level.
both_sides :
    {n : ℕ} (s : Side) (p : ℤ) (id : ℕ) (b : Book)
    → IsIndexed n b
    → index_find id b.order_index ≡ some (s, p)
    → AllWithout id (levels_of s b)
    → AllWithout id b.bids × AllWithout id b.asks
both_sides buy p id b i there h =
    (h, AllWithout-other sell buy p id b.order_index b.asks (λ e. cc) there i.asks)
both_sides sell p id b i there h =
    (AllWithout-other buy sell p id b.order_index b.bids (λ e. cc) there i.bids, h)

cancel_stop_order-none :
    (id : ℕ) (b : Book) → cancel_stop_order id b ≡ none → Without id b.stop_orders
unfolding cancel_stop_order
cancel_stop_order-none id b h =
    take_order-none id b.stop_orders (taken_none (take_order id b.stop_orders) _ h)

cancel_resting-none :
    {n : ℕ} (id : ℕ) (b : Book)
    → IsValid b
    → IsIndexed n b
    → cancel_resting id b ≡ none
    → AllWithout id b.bids × AllWithout id b.asks
unfolding cancel_resting
cancel_resting-none id b v i h = elim (Option-cases (index_find id b.order_index)) [
  | inl e ↦ (
    AllWithout-none buy id b.order_index b.bids e i.bids,
    AllWithout-none sell id b.order_index b.asks e i.asks,
  )
  | inr ((s, p), e) ↦
      let missing = taken_none (take_at id p (levels_of s b)) _ (rw e at h) in
      both_sides s p id b i e (
        take_at-none s b.order_index id p e (levels_of s b) (levels_of-IsSorted s b v)
          (levels_of-Indexed s b i) missing)
]

levels_of-Without : (s : Side) (id : ℕ) (b : Book) → IsAbsent id b → AllWithout id (levels_of s b)
levels_of-Without buy id b h = h.1
levels_of-Without sell id b h = h.2

cancel_resting-absent : (id : ℕ) (b : Book) → IsAbsent id b → cancel_resting id b ≡ none
unfolding cancel_resting
cancel_resting-absent id b h = elim (Option-cases (index_find id b.order_index)) [
  | inl e ↦ rw e
  | inr ((s, p), e) ↦ rw (e, take_at-Without id p (levels_of s b) (levels_of-Without s id b h))
]

or_else-none {ℓ} : {A : Type ℓ} (m n : Option A) → or_else m n ≡ none → (m ≡ none) × (n ≡ none)
or_else-none none n h = (refl, h)
or_else-none (some a) n h = cc

-- On a valid book whose index and identifiers are in order, a cancellation is refused exactly
-- when no order on the book, parked or resting, has the identifier.
pub cancel_order-none_iff :
    {n : ℕ} (id : ℕ) (b : Book)
    → IsValid b
    → IsIndexed n b
    → (cancel_order id b ≡ none) ↔ IsAbsent id b
unfolding cancel_order cancel_stop_order
cancel_order-none_iff id b v i = (
  λ h.
      let both = or_else-none (cancel_stop_order id b) (cancel_resting id b) h in
      let sides = cancel_resting-none id b v i both.1 in
      (cancel_stop_order-none id b both.0, sides.0, sides.1),
  λ h. rw (take_order-Without id b.stop_orders h.0, cancel_resting-absent id b h),
)

-- Where the side and the price are known, the levels after a cancellation.
set_levels-IsAbsent :
    {n : ℕ} (s : Side) (p : ℤ) (id : ℕ) (b : Book) (ls : Levels) (m : Index)
    → IsIndexed n b
    → index_find id b.order_index ≡ some (s, p)
    → Without id b.stop_orders
    → AllWithout id ls
    → IsAbsent id (record (set_levels s ls b) { order_index = m })
set_levels-IsAbsent buy p id b ls m i there stops h =
    (stops, h, AllWithout-other sell buy p id b.order_index b.asks (λ e. cc) there i.asks)
set_levels-IsAbsent sell p id b ls m i there stops h =
    (stops, AllWithout-other buy sell p id b.order_index b.bids (λ e. cc) there i.bids, h)

pub cancel_resting-removes :
    {n : ℕ} (id : ℕ) (b : Book)
    → IsValid b
    → IsIndexed n b
    → Without id b.stop_orders
    → OnSome (λ r. IsAbsent id r.0) (cancel_resting id b)
unfolding cancel_resting
cancel_resting-removes id b v i stops = elim (Option-cases (index_find id b.order_index)) [
  | inl e ↦ rw e tt
  | inr ((s, p), e) ↦ elim (Option-cases (take_at id p (levels_of s b))) [
    | inl missing ↦ rw (e, missing) tt
    | inr (r, found) ↦
        let gone =
          OnSome-some _ _
            (take_at-removes s b.order_index id p e (levels_of s b) (levels_of-IsSorted s b v)
              (levels_of-rising s b i) (levels_of-Indexed s b i))
            found in
        rw (e, found)
          (set_levels-IsAbsent s p id b r.1 (index_erase id b.order_index) i e stops gone)
  ]
]

-- The identifier of a parked order is on no level.
parked_apart :
    {n : ℕ} (id : ℕ) (b : Book) (os : List Order)
    → IsIndexed n b
    → All (IsApart n b.order_index) os
    → OnSome (λ r. AllWithout id b.bids × AllWithout id b.asks) (take_order id os)
unfolding take_order
parked_apart id b [] i h = tt
parked_apart id b (o ∷ os) i h = elim (Bool-cases (o.order_id == id)) [
  | inl here ↦
      let free =
        subst (λ k. index_find k b.order_index ≡ none) ((==_iff o.order_id id).0 here) h.0.1 in
      rw here (
        AllWithout-none buy id b.order_index b.bids free i.bids,
        AllWithout-none sell id b.order_index b.asks free i.asks,
      )
  | inr other ↦ elim (Option-cases (take_order id os)) [
    | inl e ↦ rw (other, e) tt
    | inr (r, e) ↦ rw (other, e) (OnSome-some _ _ (parked_apart id b os i h.1) e)
  ]
]

cancel_order-gone :
    {n : ℕ} (id : ℕ) (b : Book)
    → IsValid b
    → IsIndexed n b
    → OnSome (λ r. IsAbsent id r.0) (cancel_order id b)
unfolding cancel_order cancel_stop_order
cancel_order-gone id b v i = elim (Option-cases (take_order id b.stop_orders)) [
  | inl e ↦ rw e (cancel_resting-removes id b v i (take_order-none id b.stop_orders e))
  | inr (r, e) ↦
      let sides = OnSome-some _ _ (parked_apart id b b.stop_orders i i.stops) e in
      rw e
        (OnSome-some _ _ (take_order-removes id b.stop_orders i.rising_stops) e, sides.0, sides.1)
]

-- On a valid book whose index and identifiers are in order, an order that is cancelled is gone:
-- none with its identifier is left, parked or resting, on either side, and a second cancellation
-- is refused.
pub cancel_order-IsAbsent :
    {n : ℕ} (id : ℕ) (b : Book) {b' : Book} {rpt : ExecutionReport}
    → IsValid b
    → IsIndexed n b
    → cancel_order id b ≡ some (b', rpt)
    → IsAbsent id b' × (cancel_order id b' ≡ none)
unfolding cancel_order cancel_stop_order
cancel_order-IsAbsent id b {b'} v i e =
    let gone = OnSome-some _ _ (cancel_order-gone id b v i) e in
    (gone, rw (take_order-Without id b'.stop_orders gone.0, cancel_resting-absent id b' gone))
