-- ===== src/Book/Queue/Amends.antt =====
-- `cancelOrder` and `modifyOrder` (src/common/Book.cpp) do to a book what withdrawing and amending
-- an order do to its queues.
use eu_nex.Common.{
  OnSome, OnSome-some, ℕ, ◌≡◌, refl, sym, ap, ◌∙◌, false, ◌||◌, List, [], ◌∷◌, ◌++◌, Option, some,
  arith, All, if◌then◌else◌, Bool-cases, Option-cases, inl, inr, ◌>>=◌, or_else, is_empty,
}
use eu_nex.Common.Int.{ℤ, pos, eq_ℤ}
use eu_nex.Types.{buy, sell, Order, ExecutionReport, new}
use eu_nex.Book.Levels.{Levels, index_find, find_level}
use eu_nex.Book.Levels.Sides.{NoneEmpty}
use eu_nex.Book.Levels.Index.{AllWithout-other, AllWithout-none}
use eu_nex.Book.State.{Clock, Book, insert_resting}
use eu_nex.Book.Entry.{order_report, take_order_id}
use eu_nex.Book.Cancel.{
  take_order, cancel_stop_order, take_at, levels_of, cancel_resting, cancel_order, side_at,
  replacement, modify_order,
}
use eu_nex.Book.Validity.{IsValid}
use eu_nex.Book.Validity.Cancel.{cancel_order-IsValid}
use eu_nex.Book.Indexed.{IsIndexed}
use eu_nex.Book.Indexed.Cancel.{take_order-Without}
use eu_nex.Book.Queue.{
  Market, remove_parked, remove_resting, withdraw, has_price, amended, amend, place_order, next_id,
}
use eu_nex.Book.Queue.Flat.{flat, Priced}
use eu_nex.Book.Queue.Removal.{flat_taken, flat-Without, take_at-flat}
use eu_nex.Book.Queue.Entry.{view, Rests-Priced, insert_resting-view}

abbrev pub view_option : Option (Book × ExecutionReport) → Option (Market × ExecutionReport)
view_option r = r >>= λ (b, rpt). some (view b, rpt)

cancel_resting-view :
    {n : ℕ} (id : ℕ) (b : Book)
    → IsValid b
    → IsIndexed n b
    → view_option (cancel_resting id b)
      ≡ or_else (remove_resting buy id (view b)) (remove_resting sell id (view b))
unfolding cancel_resting remove_resting view
cancel_resting-view id b v i = elim (Option-cases (index_find id b.order_index)) [
  | inl e ↦
      let no_bid = flat-Without id b.bids (AllWithout-none buy id b.order_index b.bids e i.bids) in
      let no_ask = flat-Without id b.asks (AllWithout-none sell id b.order_index b.asks e i.asks) in
      rw (e, take_order-Without id (flat b.bids) no_bid, take_order-Without id (flat b.asks) no_ask)
        refl
  | inr ((buy, p), e) ↦
      let no_ask =
        flat-Without id b.asks
          (AllWithout-other sell buy p id b.order_index b.asks (λ e. cc) e i.asks) in
      let same = take_at-flat buy id p b.order_index b.bids e v.bids.sorted i.bids in
      elim (Option-cases (take_at id p b.bids)) [
        | inl f ↦
            rw (e, f, sym same ∙ ap flat_taken f, take_order-Without id (flat b.asks) no_ask) refl
        | inr (r, f) ↦ rw (e, f, sym same ∙ ap flat_taken f) refl
      ]
  | inr ((sell, p), e) ↦
      let no_bid =
        flat-Without id b.bids
          (AllWithout-other buy sell p id b.order_index b.bids (λ e. cc) e i.bids) in
      let same = take_at-flat sell id p b.order_index b.asks e v.asks.sorted i.asks in
      elim (Option-cases (take_at id p b.asks)) [
        | inl f ↦
            rw (e, f, take_order-Without id (flat b.bids) no_bid, sym same ∙ ap flat_taken f) refl
        | inr (r, f) ↦
            rw (e, f, take_order-Without id (flat b.bids) no_bid, sym same ∙ ap flat_taken f) refl
      ]
]

-- Cancelling in a valid book with an exact table.
pub cancel_order-withdraw :
    {n : ℕ} (id : ℕ) (b : Book)
    → IsValid b
    → IsIndexed n b
    → view_option (cancel_order id b) ≡ withdraw id (view b)
unfolding cancel_order cancel_stop_order withdraw remove_parked view
cancel_order-withdraw id b v i = elim (Option-cases (take_order id b.stop_orders)) [
  | inl e ↦ rw e (cancel_resting-view id b v i)
  | inr (r, e) ↦ rw e refl
]

has_price-level :
    (p q : ℤ) (os rs : List Order)
    → is_empty os ≡ false
    → All (λ o. o.price ≡ q) os
    → has_price p (os ++ rs) ≡ (eq_ℤ p q || has_price p rs)
unfolding has_price
has_price-level p q [] rs ne priced = ground arith
has_price-level p q (o ∷ []) rs ne priced = rw priced.0 refl
has_price-level p q (o ∷ x ∷ os) rs ne priced =
    let rest = has_price-level p q (x ∷ os) rs refl priced.1 in
    rw priced.0
      (elim (Bool-cases (eq_ℤ p q)) [ inl e ↦ rw e refl | inr e ↦ rw e (rest ∙ rw e refl) ])

has_price-nil : (p : ℤ) → has_price p [] ≡ false
unfolding has_price
has_price-nil p = refl

-- A level at the price is an order at the price.
has_price-flat :
    (p : ℤ) (ls : Levels)
    → NoneEmpty ls
    → Priced ls
    → (if has_price p (flat ls) then buy else sell) ≡ side_at p ls
unfolding flat find_level
has_price-flat p [] ne priced = rw (has_price-nil p) refl
has_price-flat p (l ∷ ls) ne priced =
    rw (has_price-level p l.price l.orders (flat ls) ne.0 priced.0)
      (elim (Bool-cases (eq_ℤ p l.price)) [
        | inl e ↦ rw (side_at, e) refl
        | inr e ↦ rw (side_at, e) (has_price-flat p ls ne.1 priced.1)
      ])

cancel_order-last_price :
    (id : ℕ) (b : Book) → OnSome (λ r. r.1.last_price ≡ pos 0) (cancel_order id b)
unfolding cancel_order cancel_stop_order cancel_resting
cancel_order-last_price id b = elim (Option-cases (take_order id b.stop_orders)) [
  | inr (r, e) ↦ rw e refl
  | inl e ↦ elim (Option-cases (index_find id b.order_index)) [
    | inl f ↦ rw (e, f) tt
    | inr ((s, p), f) ↦ elim (Option-cases (take_at id p (levels_of s b))) [
      | inl missing ↦ rw (e, f, missing) tt
      | inr (r, found) ↦ rw (e, f, found) refl
    ]
  ]
]

replacement-amended :
    (clk : Clock) (b : Book) (rpt : ExecutionReport) (p : ℤ) (q : ℕ)
    → IsValid b
    → rpt.last_price ≡ pos 0
    → replacement clk b rpt p q ≡ amended clk (view b) rpt.cl_ord_id p q
unfolding replacement amended view
replacement-amended clk b rpt p q v e =
    rw (e, has_price-flat (pos 0) b.bids v.bids.none_empty (Rests-Priced buy b.bids v.bids.resting))
      refl

-- What enters instead of the order that is gone.
replaced-view :
    (b : Book) (o o' : Order) (q : ℕ)
    → IsValid b
    → o ≡ o'
    → view_option (some (insert_resting o (take_order_id b), order_report o new 0 q))
      ≡ some (place_order o' (next_id (view b)), order_report o' new 0 q)
unfolding view
replaced-view b o o' q v same =
    let v1 : IsValid (take_order_id b) = record { bids = v.bids; asks = v.asks; stops = v.stops } in
    ap (λ m. some (m, order_report o new 0 q)) (insert_resting-view o (take_order_id b) v1)
    ∙ ap (λ x. some (place_order x (next_id (view b)), order_report x new 0 q)) same

-- Modifying in a valid book with an exact table.
pub modify_order-amend :
    {n : ℕ} (clk : Clock) (id : ℕ) (p : ℤ) (q : ℕ) (b : Book)
    → IsValid b
    → IsIndexed n b
    → view_option (modify_order clk id p q b) ≡ amend clk id p q (view b)
unfolding modify_order amend
modify_order-amend clk id p q b v i =
    let same = cancel_order-withdraw id b v i in
    elim (Option-cases (cancel_order id b)) [
      | inl e ↦ rw (e, sym same ∙ ap view_option e) refl
      | inr ((b1, rpt), e) ↦
          let v1 = cancel_order-IsValid id b v e in
          let zero_price = OnSome-some _ _ (cancel_order-last_price id b) e in
          let o = replacement clk b1 rpt p q in
          let o' = amended clk (view b1) rpt.cl_ord_id p q in
          rw (e, sym same ∙ ap view_option e)
            (replaced-view b1 o o' q v1 (replacement-amended clk b1 rpt p q v1 zero_price))
    ]
