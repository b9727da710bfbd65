-- ===== src/Book/Validity/Modify.antt =====
-- `modifyOrder` of src/common/Book.cpp. It looks for the side of the order at the price 0, which is
-- what the cancellation's report holds, so that a buy order comes back as a sell order.
use eu_nex.Common.{
  OnSome, OnSome-some, bind-some, ℕ, ◌+◌, ◌≤◌, ◌<◌, ◌≡◌, refl, false, List, [], ◌∷◌, arith, u64_mod,
  Option-cases, none, some, inl, inr, sum_by-append,
}
use eu_nex.Common.Int.{ℤ, pos, eq_ℤ}
use eu_nex.Types.{Side, buy, sell, Order, ExecutionReport}
use eu_nex.Book.Levels.{Levels, find_level, index_find, push_order}
use eu_nex.Book.Levels.Sides.{AllPrices}
use eu_nex.Book.State.{Clock, Book, insert_resting}
use eu_nex.Book.Sweep.Quantities.{orders_qty, levels_qty, levels_qty-keep_level}
use eu_nex.Book.Entry.{take_order_id}
use eu_nex.Book.Cancel.{
  take_order, cancel_stop_order, take_at, cancel_resting, cancel_order, replacement, modify_order,
  side_at,
}
use eu_nex.Book.Validity.{IsValid}
use eu_nex.Book.Validity.Entry.{insert_resting-IsValid}
use eu_nex.Book.Validity.Cancel.{take_at-AllPrices, cancel_order-IsValid}

pub replaced-IsValid :
    (clk : Clock) (b1 : Book) (c : ExecutionReport) (p : ℤ) (q : ℕ)
    → 0 < q
    → q < u64_mod
    → IsValid b1
    → IsValid (insert_resting (replacement clk b1 c p q) (take_order_id b1))
unfolding replacement
replaced-IsValid clk b1 c p q h k v =
    insert_resting-IsValid (replacement clk b1 c p q) (take_order_id b1)
      (refl, refl, h, omega arith, k) (record { bids = v.bids; asks = v.asks; stops = v.stops })

-- A modification that succeeds, to a positive quantity below 2^64, keeps a valid book valid.
pub modify_order-IsValid :
    (clk : Clock) (id : ℕ) (p : ℤ) (q : ℕ) (b : Book) {b' : Book} {rpt : ExecutionReport}
    → 0 < q
    → q < u64_mod
    → IsValid b
    → modify_order clk id p q b ≡ some (b', rpt)
    → IsValid b'
unfolding modify_order
modify_order-IsValid clk id p q b h k v e =
    let (r, cancelled, done) = bind-some (cancel_order id b) _ e in
    let kept = replaced-IsValid clk r.0 r.1 p q h k (cancel_order-IsValid id b v cancelled) in
    ground (arith, kept)

find_level-none :
    (p : ℤ) (ls : Levels) → AllPrices (λ q. eq_ℤ p q ≡ false) ls → find_level p ls ≡ none
unfolding find_level
find_level-none p [] h = refl
find_level-none p (l ∷ ls) h = ground (arith, find_level-none p ls h.1)

pub levels_qty-push_order :
    (s : Side) (o : Order) (ls : Levels)
    → levels_qty (push_order s o ls) ≡ levels_qty ls + o.remaining_qty
unfolding push_order
levels_qty-push_order s o [] = omega arith
levels_qty-push_order s o (l ∷ ls) = ground (
  arith,
  sum_by-append (λ (o : Order). o.remaining_qty) l.orders (o ∷ []),
  levels_qty-push_order s o ls,
)

take_order-qty :
    (id : ℕ) (os : List Order)
    → OnSome (λ r. orders_qty r.1 + r.0.remaining_qty ≡ orders_qty os) (take_order id os)
unfolding take_order
take_order-qty id [] = tt
take_order-qty id (o ∷ os) = ground (arith, take_order-qty id os)

pub take_at-qty :
    (id : ℕ) (p : ℤ) (ls : Levels)
    → OnSome (λ r. levels_qty r.1 + r.0.remaining_qty ≡ levels_qty ls) (take_at id p ls)
unfolding take_at
take_at-qty id p [] = tt
take_at-qty id p (l ∷ ls) = elim (Option-cases (take_order id l.orders)) [
  | inl e ↦ ground (arith, take_at-qty id p ls)
  | inr (r, e) ↦ ground (
    arith,
    OnSome-some _ _ (take_order-qty id l.orders) e,
    levels_qty-keep_level l r.1 ls,
    take_at-qty id p ls,
  )
]

replacement_sells :
    (clk : Clock) (b1 : Book) (c : ExecutionReport) (p : ℤ) (q : ℕ)
    → c.last_price ≡ pos 0
    → AllPrices (λ r. eq_ℤ (pos 0) r ≡ false) b1.bids
    → (replacement clk b1 c p q).side ≡ sell
unfolding replacement
replacement_sells clk b1 c p q zero_price h =
    rw (zero_price, side_at, find_level-none (pos 0) b1.bids h)

inserted_sell-qty :
    (o : Order) (b : Book)
    → o.side ≡ sell
    → let b' = insert_resting o b in
      (levels_qty b'.asks ≡ levels_qty b.asks + o.remaining_qty) × (b'.bids ≡ b.bids)
unfolding insert_resting
inserted_sell-qty o b h =
    let grown = levels_qty-push_order sell o b.asks in (ground arith, ground arith)

cancel_buy :
    (id : ℕ) (p0 : ℤ) (b : Book) {r : Book × ExecutionReport}
    → cancel_stop_order id b ≡ none
    → index_find id b.order_index ≡ some (buy, p0)
    → AllPrices (λ r. eq_ℤ (pos 0) r ≡ false) b.bids
    → cancel_order id b ≡ some r
    → (r.1.last_price ≡ pos 0)
      × AllPrices (λ r. eq_ℤ (pos 0) r ≡ false) r.0.bids
      × (levels_qty r.0.bids ≤ levels_qty b.bids)
      × (r.0.asks ≡ b.asks)
unfolding cancel_order cancel_resting
cancel_buy id p0 b no_stop there h e = elim (Option-cases (take_at id p0 b.bids)) [
  | inl missing ↦ ground arith
  | inr (found, f) ↦
      let prices =
        OnSome-some _ _ (take_at-AllPrices (λ r. eq_ℤ (pos 0) r ≡ false) id p0 b.bids h) f in
      let qty = OnSome-some _ _ (take_at-qty id p0 b.bids) f in
      (ground arith, ground arith, ground arith, ground arith)
]

-- If the order is no parked stop order and is indexed as a buy order, and the book has no bid at
-- the price 0, a modification that succeeds puts in a sell order: the asks grow by the new
-- quantity, and the bids do not grow.
pub modify_order_flips_buy :
    (clk : Clock) (id : ℕ) (p p0 : ℤ) (q : ℕ) (b : Book) {b' : Book} {rpt : ExecutionReport}
    → cancel_stop_order id b ≡ none
    → index_find id b.order_index ≡ some (buy, p0)
    → AllPrices (λ r. eq_ℤ (pos 0) r ≡ false) b.bids
    → modify_order clk id p q b ≡ some (b', rpt)
    → (levels_qty b'.asks ≡ levels_qty b.asks + q) × (levels_qty b'.bids ≤ levels_qty b.bids)
unfolding modify_order replacement
modify_order_flips_buy clk id p p0 q b no_stop there h e =
    let (r, cancelled, done) = bind-some (cancel_order id b) _ e in
    let before = cancel_buy id p0 b no_stop there h cancelled in
    let sells = replacement_sells clk r.0 r.1 p q before.0 before.1 in
    let grown = inserted_sell-qty (replacement clk r.0 r.1 p q) (take_order_id r.0) sells in
    (ground arith, ground arith)
