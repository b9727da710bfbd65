-- ===== src/Book/Queue/Entry.antt =====
-- `newOrder` (src/common/Book.cpp) does to a book what entering an order does to its queues.
use eu_nex.Common.{
  sub64, ◌+◌, ◌<◌, ◌≡◌, refl, sym, ap, ◌∙◌, subst, Bool, true, false, ◌||◌, List, [], ◌∷◌, ◌++◌,
  arith, All, All-mono, if◌then◌else◌, Bool-cases, inl, inr, ◌==◌, ltb, u64_mod, is_empty,
}
use eu_nex.Common.Int.{ℤ}
use eu_nex.Types.{Side, buy, sell, Order, is_stop, is_fok, is_market, is_ioc, partially_filled, new}
use eu_nex.Book.Levels.{Levels}
use eu_nex.Book.Levels.Sides.{Rests, AllOrders, NoneEmpty}
use eu_nex.Book.State.{Output, reported, Clock, Book, insert_at, insert_resting}
use eu_nex.Book.Sweep.{start_fill, resting_after}
use eu_nex.Book.Sweep.Quantities.{levels_qty, orders_qty, reachable_qty}
use eu_nex.Book.Matching.{blocked, match_outputs, match_buy, match_sell, match_levels}
use eu_nex.Book.Entry.{
  order_report, accumulates, is_closed, accept, take_order_id, opposite_levels, fok_short,
  match_order, rest_order, execute, new_order,
}
use eu_nex.Book.Entry.Fills.{opposite_levels-take_order_id}
use eu_nex.Book.Entry.Fok.{fok_short-eq}
use eu_nex.Book.Validity.{IsValid}
use eu_nex.Book.Validity.Entry.{match_order-IsValid}
use eu_nex.Book.Queue.{
  Market, Deal, queue_of, set_queue, other, place, place_order, deal_outputs, deal_order, offered,
  too_small, settle_rest, serve, admit,
}
use eu_nex.Book.Queue.Flat.{flat, Priced, flat-push_order}
use eu_nex.Book.Queue.Deals.{sweep_levels-deal}

-- What a book stands for.
unfoldable pub view : Book → Market
view b = record {
  symbol_idx = b.symbol_idx;
  next_trade_id = b.next_trade_id;
  next_order_id = b.next_order_id;
  last_trade_price = b.last_trade_price;
  phase = b.phase;
  bids = flat b.bids;
  asks = flat b.asks;
  stop_orders = b.stop_orders;
}

abbrev pub view_result : Book × Order × List Output → Market × List Output
view_result r = (view r.0, r.2)

pub Rests-Priced : (s : Side) (ls : Levels) → AllOrders (Rests s) ls → Priced ls
Rests-Priced s =
    All-mono (λ l. All (Rests s l.price) l.orders) (λ l. All (λ o. o.price ≡ l.price) l.orders)
      (λ l. All-mono (Rests s l.price) (λ o. o.price ≡ l.price) (λ o r. r.1) l.orders)

insert_at-view :
    (s : Side) (o : Order) (b : Book)
    → IsValid b
    → view (insert_at s o b) ≡ set_queue s (place s o (queue_of s (view b))) (view b)
unfolding view
insert_at-view buy o b v =
    ap (λ os. record (view b) { bids = os })
      (flat-push_order buy o b.bids v.bids.sorted (Rests-Priced buy b.bids v.bids.resting))
insert_at-view sell o b v =
    ap (λ os. record (view b) { asks = os })
      (flat-push_order sell o b.asks v.asks.sorted (Rests-Priced sell b.asks v.asks.resting))

pub insert_resting-view :
    (o : Order) (b : Book) → IsValid b → view (insert_resting o b) ≡ place_order o (view b)
unfolding insert_resting view
insert_resting-view o b v =
    insert_at-view o.side o (record b { order_index = _ })
      (record { bids = v.bids; asks = v.asks; stops = v.stops })

abbrev dealt : Side → Market → Deal × List Order × List Output → Market × Order × List Output
dealt s m t = (
  record (set_queue (other s) t.1 m) {
    next_trade_id = t.0.next_trade_id;
    last_trade_price = t.0.last_trade_price;
  },
  t.0.incoming,
  t.2,
)

match_order-view :
    (s : Side) (clk : Clock) (b : Book) (o : Order)
    → IsValid b
    → let (b1, o1, out) = match_order s clk b o in (view b1, o1, out) ≡ deal_order s clk (view b) o
unfolding match_buy match_sell match_levels deal_order deal_outputs match_outputs resting_after view
match_order-view buy clk b o v = ap (dealt buy (view b)) (
    sym (
      sweep_levels-deal (match_outputs clk buy b.symbol_idx) (deal_outputs clk buy b.symbol_idx)
        (λ p f r. refl) (λ p. p) (blocked buy) (λ x q p. refl) (start_fill b o) b.asks
        v.asks.none_empty (Rests-Priced sell b.asks v.asks.resting)))
match_order-view sell clk b o v = ap (dealt sell (view b)) (
    sym (
      sweep_levels-deal (match_outputs clk sell b.symbol_idx) (deal_outputs clk sell b.symbol_idx)
        (λ p f r. refl) (λ p. p) (blocked sell) (λ x q p. refl) (start_fill b o) b.bids
        v.bids.none_empty (Rests-Priced buy b.bids v.bids.resting)))

offered-within :
    (stop : ℤ → Bool) (p : ℤ) (os rs : List Order)
    → stop p ≡ false
    → All (λ o. o.price ≡ p) os
    → offered stop (os ++ rs) ≡ orders_qty os + offered stop rs
unfolding offered
offered-within stop p [] rs e priced = omega arith
offered-within stop p (o ∷ os) rs e priced =
    let here : stop o.price ≡ false = subst (λ q. stop q ≡ false) (sym priced.0) e in
    ground (arith, offered-within stop p os rs e priced.1)

offered-beyond :
    (stop : ℤ → Bool) (p : ℤ) (os rs : List Order)
    → stop p ≡ true
    → is_empty os ≡ false
    → All (λ o. o.price ≡ p) os
    → offered stop (os ++ rs) ≡ 0
unfolding offered
offered-beyond stop p [] rs e ne priced = ground arith
offered-beyond stop p (o ∷ os) rs e ne priced =
    let here : stop o.price ≡ true = subst (λ q. stop q ≡ true) (sym priced.0) e in ground arith

offered-nil : (stop : ℤ → Bool) → offered stop [] ≡ 0
unfolding offered
offered-nil stop = refl

-- The levels within a limit hold what the queue offers within it.
offered-flat :
    (stop : ℤ → Bool) (ls : Levels)
    → NoneEmpty ls
    → Priced ls
    → offered stop (flat ls) ≡ reachable_qty stop ls
unfolding flat reachable_qty
offered-flat stop [] ne priced = offered-nil stop
offered-flat stop (l ∷ ls) ne priced = elim (Bool-cases (stop l.price)) [
  | inl e ↦ rw e (offered-beyond stop l.price l.orders (flat ls) e ne.0 priced.0)
  | inr e ↦
      rw (e, ← offered-flat stop ls ne.1 priced.1)
        (offered-within stop l.price l.orders (flat ls) e priced.0)
]

offered-opposite :
    (s : Side) (stop : ℤ → Bool) (b : Book)
    → IsValid b
    → offered stop (queue_of (other s) (view b)) ≡ reachable_qty stop (opposite_levels s b)
unfolding view
offered-opposite buy stop b v =
    offered-flat stop b.asks v.asks.none_empty (Rests-Priced sell b.asks v.asks.resting)
offered-opposite sell stop b v =
    offered-flat stop b.bids v.bids.none_empty (Rests-Priced buy b.bids v.bids.resting)

fok_short-too_small :
    (b : Book) (o : Order)
    → IsValid b
    → levels_qty (opposite_levels o.side b) < u64_mod
    → fok_short b o ≡ too_small (view b) o
unfolding too_small
fok_short-too_small b o v room = fok_short-eq b o room ∙ (elim (Bool-cases (is_fok o.tif)) [
  | inl e ↦ rw (e, offered-opposite o.side (blocked o.side o) b v) refl
  | inr e ↦ rw e refl
])

rest_order-view :
    (b : Book) (o : Order) → IsValid b → view_result (rest_order b o) ≡ settle_rest (view b) o
unfolding rest_order settle_rest
rest_order-view b o v =
    let status = if ltb o.remaining_qty o.quantity then partially_filled else new in
    let out =
      reported (order_report o status (sub64 o.quantity o.remaining_qty) o.remaining_qty) ∷ [] in
    elim (Bool-cases (o.remaining_qty == 0)) [
      | inl e ↦ rw e refl
      | inr e ↦ elim (Bool-cases (is_market o.ord_type || is_ioc o.tif)) [
        | inl f ↦ rw (e, f) refl
        | inr f ↦
            rw (e, f) (ap (λ m. (m, out)) (insert_resting-view (record o { status = status }) b v))
      ]
    ]

abbrev settled : Market × Order × List Output → Market × List Output
settled t = let (m, out) = settle_rest t.0 t.1 in (m, t.2 ++ out)

execute-view :
    (clk : Clock) (b : Book) (o : Order)
    → IsValid b
    → view_result (execute clk b o) ≡ serve clk (view b) o
unfolding execute serve
execute-view clk b o v =
    let (b1, o1, out1) = match_order o.side clk b o in
    ap (λ (t : Market × List Output). (t.0, out1 ++ t.1))
      (rest_order-view b1 o1 (match_order-IsValid o.side clk b o v))
    ∙ ap settled (match_order-view o.side clk b o v)

-- A new order in a valid book, with less than 2^64 resting on the other side.
pub new_order-admit :
    (clk : Clock) (b : Book) (o : Order)
    → IsValid b
    → levels_qty (opposite_levels o.side b) < u64_mod
    → view_result (new_order clk b o) ≡ admit clk (view b) o
unfolding new_order admit accept view
new_order-admit clk b o v room =
    let b1 = take_order_id b in
    let o1 = accept clk b o in
    let v1 : IsValid b1 = record { bids = v.bids; asks = v.asks; stops = v.stops } in
    let same = fok_short-too_small b1 o1 v1 (rw (opposite_levels-take_order_id o.side b) room) in
    let out = reported (order_report o1 new 0 o.quantity) ∷ [] in
    elim (Bool-cases (is_stop o.ord_type)) [
      | inl stop ↦ rw stop refl
      | inr plain ↦ elim (Bool-cases (accumulates b.phase)) [
        | inl early ↦ rw (plain, early) (ap (λ m. (m, out)) (insert_resting-view o1 b1 v1))
        | inr live ↦ elim (Bool-cases (is_closed b.phase)) [
          | inl late ↦ rw (plain, live, late) refl
          | inr trading ↦ elim (Bool-cases (fok_short b1 o1)) [
            | inl short ↦ rw (plain, live, trading, short, sym same ∙ short) refl
            | inr enough ↦
                rw (plain, live, trading, enough, sym same ∙ enough) (execute-view clk b1 o1 v1)
          ]
        ]
      ]
    ]
