-- ===== src/Book/Indexed/Entered.antt =====
-- `modifyOrder` and `triggerStopOrders` of src/common/Book.cpp enter orders under new identifiers,
-- and keep all identifiers in order.
use eu_nex.Common.{
  OnSome, OnSome-some, bind-some, ℕ, ◌+◌, ◌<◌, ◌≡◌, refl, sym, subst, ◌∙◌, Bool, not, List, [], ◌∷◌,
  length, Option, some, arith, All, keep, Option-cases, inl, inr, u64_mod, add64-eq,
}
use eu_nex.Common.Int.{ℤ}
use eu_nex.Types.{Side, buy, sell, Order, ExecutionReport}
use eu_nex.Book.Levels.{Levels, index_find}
use eu_nex.Book.Levels.Index.{IsRising}
use eu_nex.Book.State.{Clock, Book, insert_resting}
use eu_nex.Book.Entry.{take_order_id, new_order}
use eu_nex.Book.Entry.Frame.{insert_resting-Keeps}
use eu_nex.Book.Cancel.{
  take_order, cancel_stop_order, take_at, cancel_resting, cancel_order, levels_of, set_levels,
  replacement, modify_order,
}
use eu_nex.Book.Stops.{triggers, convert, enter_all, trigger_stop_orders}
use eu_nex.Book.Validity.{IsValid, IsParked}
use eu_nex.Book.Validity.Entry.{new_order-IsValid}
use eu_nex.Book.Validity.Stops.{All-keep}
use eu_nex.Book.Indexed.{IsIndexed, IsApart}
use eu_nex.Book.Indexed.Entry.{
  insert_resting-IsIndexed, new_order-IsIndexed, new_order-next_order_id,
}
use eu_nex.Book.Indexed.Kept.{cancel_order-IsIndexed}

set_levels-next_order_id :
    (s : Side) (ls : Levels) (b : Book) → (set_levels s ls b).next_order_id ≡ b.next_order_id
set_levels-next_order_id buy ls b = refl
set_levels-next_order_id sell ls b = refl

-- Cancelling gives no identifier.
pub cancel_order-next_order_id :
    (id : ℕ) (b : Book) → OnSome (λ r. r.0.next_order_id ≡ b.next_order_id) (cancel_order id b)
unfolding cancel_order cancel_stop_order cancel_resting
cancel_order-next_order_id id b = elim (Option-cases (take_order id b.stop_orders)) [
  | inr (r, e) ↦ rw e refl
  | inl e ↦ elim (Option-cases (index_find id b.order_index)) [
    | inl f ↦ rw (e, f) tt
    | inr ((s, p), f) ↦ elim (Option-cases (take_at id p (levels_of s b))) [
      | inl missing ↦ rw (e, f, missing) tt
      | inr (r, found) ↦ rw (e, f, found) (set_levels-next_order_id s r.1 b)
    ]
  ]
]

take_order_id-IsIndexed : {n : ℕ} (b : Book) → IsIndexed n b → IsIndexed n (take_order_id b)
take_order_id-IsIndexed b i = record {
  bids = i.bids;
  asks = i.asks;
  rising_bids = i.rising_bids;
  rising_asks = i.rising_asks;
  keys = i.keys;
  stops = i.stops;
  rising_stops = i.rising_stops;
}

replaced-IsIndexed :
    (clk : Clock) (b1 : Book) (c : ExecutionReport) (p : ℤ) (q : ℕ)
    → b1.next_order_id + 1 < u64_mod
    → IsIndexed b1.next_order_id b1
    → let b' = insert_resting (replacement clk b1 c p q) (take_order_id b1) in
      IsIndexed b'.next_order_id b'
unfolding replacement
replaced-IsIndexed clk b1 c p q room i =
    let o = replacement clk b1 c p q in
    subst (λ n. IsIndexed n (insert_resting o (take_order_id b1)))
      (sym ((insert_resting-Keeps o (take_order_id b1)).2 ∙ add64-eq b1.next_order_id 1 room))
      (insert_resting-IsIndexed o (take_order_id b1) (take_order_id-IsIndexed b1 i))

-- A modification that succeeds keeps the index and the identifiers of a valid book in order, if
-- the next identifiers do not wrap.
pub modify_order-IsIndexed :
    (clk : Clock) (id : ℕ) (p : ℤ) (q : ℕ) (b : Book) {b' : Book} {rpt : ExecutionReport}
    → b.next_order_id + 1 < u64_mod
    → IsValid b
    → IsIndexed b.next_order_id b
    → modify_order clk id p q b ≡ some (b', rpt)
    → IsIndexed b'.next_order_id b'
unfolding modify_order
modify_order-IsIndexed clk id p q b room v i e =
    let (r, cancelled, done) = bind-some (cancel_order id b) _ e in
    let same = OnSome-some _ _ (cancel_order-next_order_id id b) cancelled in
    let kept =
      replaced-IsIndexed clk r.0 r.1 p q (rw same room)
        (rw same (cancel_order-IsIndexed id b v i cancelled)) in
    subst (λ (x : Option (Book × ExecutionReport)). OnSome (λ r. IsIndexed r.0.next_order_id r.0) x)
      done kept

keep-IsRising : (p : Order → Bool) (os : List Order) → IsRising os → IsRising (keep p os)
keep-IsRising p [] h = tt
keep-IsRising p (o ∷ os) h =
    ground
      (arith, All-keep (λ (r : Order). o.order_id < r.order_id) p os h.0, keep-IsRising p os h.1)

enter_all-IsIndexed :
    (clk : Clock) (b : Book) (os : List Order)
    → b.next_order_id + length os < u64_mod
    → All IsParked os
    → IsValid b
    → IsIndexed b.next_order_id b
    → let b' = (enter_all clk b os).0 in IsIndexed b'.next_order_id b'
unfolding enter_all convert
enter_all-IsIndexed clk b [] room h v i = i
enter_all-IsIndexed clk b (o ∷ os) room h v i =
    let next = new_order-next_order_id clk b (convert o) in
    let b1 = (new_order clk b (convert o)).0 in
    enter_all-IsIndexed clk b1 os (omega (arith, add64-eq b.next_order_id 1)) h.1
      (new_order-IsValid clk b (convert o) h.0.1 (omega arith) v)
      (new_order-IsIndexed clk b (convert o) (omega arith) v i)

-- Triggering keeps the index and the identifiers of a valid book in order, if the identifiers
-- that it gives do not wrap.
pub trigger_stop_orders-IsIndexed :
    (clk : Clock) (trade_price : ℤ) (b : Book)
    → b.next_order_id + length (keep (triggers trade_price) b.stop_orders) < u64_mod
    → IsValid b
    → IsIndexed b.next_order_id b
    → let b' = (trigger_stop_orders clk trade_price b).0 in IsIndexed b'.next_order_id b'
unfolding trigger_stop_orders
trigger_stop_orders-IsIndexed clk trade_price b room v i =
    enter_all-IsIndexed clk _ (keep (triggers trade_price) b.stop_orders) room
      (All-keep IsParked (triggers trade_price) b.stop_orders v.stops)
      (record {
        bids = v.bids;
        asks = v.asks;
        stops = All-keep IsParked (λ o. not (triggers trade_price o)) b.stop_orders v.stops;
      })
      (record {
        bids = i.bids;
        asks = i.asks;
        rising_bids = i.rising_bids;
        rising_asks = i.rising_asks;
        keys = i.keys;
        stops =
            All-keep (IsApart b.next_order_id b.order_index) (λ o. not (triggers trade_price o))
              b.stop_orders i.stops;
        rising_stops =
            keep-IsRising (λ o. not (triggers trade_price o)) b.stop_orders i.rising_stops;
      })
