-- ===== src/Book/Indexed/Entry.antt =====
-- `newOrder` of src/common/Book.cpp keeps the identifiers in order.
use eu_nex.Common.{
  ℕ, ◌+◌, ◌<◌, ◌≡◌, refl, sym, ap, subst, ◌∙◌, List, [], ◌∷◌, ◌++◌, arith, All, All-mono,
  All-append, u64_mod, add64, add64-eq,
}
use eu_nex.Common.Int.{ℤ}
use eu_nex.Types.{Side, buy, sell, Order}
use eu_nex.Book.Levels.{Levels, Index, push_order, index_insert}
use eu_nex.Book.Levels.Sides.{AllOrders, push_order-AllOrders}
use eu_nex.Book.Levels.Index.{
  Mapped, Indexed, IsRising, AllRising, KeysBelow, index_find-insert, index_find-above,
  index_insert-KeysBelow,
}
use eu_nex.Book.State.{Clock, Book, insert_at, insert_resting}
use eu_nex.Book.Sweep.{start_fill}
use eu_nex.Book.Sweep.Entries.{
  sweep_levels-Indexed, sweep_levels-other, sweep_levels-none, sweep_levels-KeysBelow,
  sweep_levels-AllRising,
}
use eu_nex.Book.Matching.{blocked, match_outputs, match_levels, match_buy, match_sell}
use eu_nex.Book.Entry.{accept, take_order_id, match_order, rest_order, execute, new_order}
use eu_nex.Book.Entry.Frame.{insert_resting-Keeps, execute-Keeps}
use eu_nex.Book.Entry.Branches.{new_order_cases}
use eu_nex.Book.Entry.Fills.{match_order-incoming}
use eu_nex.Book.Validity.{IsValid}
use eu_nex.Book.Indexed.{IsIndexed, IsApart}

-- An identifier that is newer than all others goes last.
IsRising-push :
    (os : List Order) (o : Order)
    → All (λ r. r.order_id < o.order_id) os
    → IsRising os
    → IsRising (os ++ o ∷ [])
IsRising-push [] o h k = (tt, tt)
IsRising-push (r ∷ rs) o h k = (
  All-append (λ x. r.order_id < x.order_id) rs (o ∷ []) k.0 (h.0, tt),
  IsRising-push rs o h.1 k.1,
)

push_order-AllRising :
    (s : Side) (o : Order) (ls : Levels)
    → AllOrders (λ _ r. r.order_id < o.order_id) ls
    → AllRising ls
    → AllRising (push_order s o ls)
unfolding push_order
push_order-AllRising s o [] h k = ((tt, tt), tt)
push_order-AllRising s o (l ∷ ls) h k =
    ground (arith, IsRising-push l.orders o h.0 k.0, push_order-AllRising s o ls h.1 k.1)

-- What is mapped is older than every identifier that is still to be given.
Indexed-below :
    (n : ℕ) (s : Side) (m : Index) (ls : Levels)
    → KeysBelow n m
    → Indexed s m ls
    → AllOrders (λ _ r. r.order_id < n) ls
Indexed-below n s m [] keys i = tt
Indexed-below n s m (l ∷ ls) keys i = (
  All-mono (Mapped s m l.price) (λ r. r.order_id < n)
      (λ r there. grind (arith, index_find-above n r.order_id m keys)) l.orders i.0,
  Indexed-below n s m ls keys i.1,
)

-- A new entry hides no other.
Indexed-insert :
    (n : ℕ) (s s' : Side) (p : ℤ) (m : Index) (ls : Levels)
    → KeysBelow n m
    → Indexed s m ls
    → Indexed s (index_insert n s' p m) ls
Indexed-insert n s s' p m [] keys i = tt
Indexed-insert n s s' p m (l ∷ ls) keys i = (
  All-mono (Mapped s m l.price) (Mapped s (index_insert n s' p m) l.price)
      (λ r there.
        grind (arith, index_find-above n r.order_id m keys, index_find-insert r.order_id n s' p m))
      l.orders i.0,
  Indexed-insert n s s' p m ls keys i.1,
)

stops-insert :
    (n : ℕ) (s : Side) (p : ℤ) (m : Index) (os : List Order)
    → All (IsApart n m) os
    → All (IsApart (n + 1) (index_insert n s p m)) os
stops-insert n s p m os =
    All-mono (IsApart n m) (IsApart (n + 1) (index_insert n s p m))
      (λ o e. ground (arith, index_find-insert o.order_id n s p m)) os

keys_mono : (n : ℕ) (m : Index) → KeysBelow n m → KeysBelow (n + 1) m
keys_mono n m = All-mono (λ e. e.0 < n) (λ e. e.0 < n + 1) (λ e h. omega arith) m

insert_at-IsIndexed :
    (s : Side) (o : Order) (b : Book)
    → IsIndexed o.order_id b
    → let m = index_insert o.order_id s o.price b.order_index in
      IsIndexed (o.order_id + 1) (insert_at s o (record b { order_index = m }))
insert_at-IsIndexed buy o b i =
    let n = o.order_id in
    let m = index_insert n buy o.price b.order_index in
    record {
      bids =
          push_order-AllOrders (Mapped buy m) buy o b.bids
            (ground (arith, index_find-insert n n buy o.price b.order_index))
            (Indexed-insert n buy buy o.price b.order_index b.bids i.keys i.bids);
      asks = Indexed-insert n sell buy o.price b.order_index b.asks i.keys i.asks;
      rising_bids =
          push_order-AllRising buy o b.bids (Indexed-below n buy b.order_index b.bids i.keys i.bids)
            i.rising_bids;
      rising_asks = i.rising_asks;
      keys =
          index_insert-KeysBelow (n + 1) n buy o.price b.order_index (omega arith)
            (keys_mono n b.order_index i.keys);
      stops = stops-insert n buy o.price b.order_index b.stop_orders i.stops;
      rising_stops = i.rising_stops;
    }
insert_at-IsIndexed sell o b i =
    let n = o.order_id in
    let m = index_insert n sell o.price b.order_index in
    record {
      bids = Indexed-insert n buy sell o.price b.order_index b.bids i.keys i.bids;
      asks =
          push_order-AllOrders (Mapped sell m) sell o b.asks
            (ground (arith, index_find-insert n n sell o.price b.order_index))
            (Indexed-insert n sell sell o.price b.order_index b.asks i.keys i.asks);
      rising_bids = i.rising_bids;
      rising_asks =
          push_order-AllRising sell o b.asks
            (Indexed-below n sell b.order_index b.asks i.keys i.asks) i.rising_asks;
      keys =
          index_insert-KeysBelow (n + 1) n sell o.price b.order_index (omega arith)
            (keys_mono n b.order_index i.keys);
      stops = stops-insert n sell o.price b.order_index b.stop_orders i.stops;
      rising_stops = i.rising_stops;
    }

-- An order with the newest identifier may rest.
pub insert_resting-IsIndexed :
    (o : Order) (b : Book)
    → IsIndexed o.order_id b
    → IsIndexed (o.order_id + 1) (insert_resting o b)
unfolding insert_resting
insert_resting-IsIndexed o b i = insert_at-IsIndexed o.side o b i

-- The identifiers that are not yet given are free.
IsIndexed-mono : (n : ℕ) (b : Book) → IsIndexed n b → IsIndexed (n + 1) b
IsIndexed-mono n b i = record {
  bids = i.bids;
  asks = i.asks;
  rising_bids = i.rising_bids;
  rising_asks = i.rising_asks;
  keys = keys_mono n b.order_index i.keys;
  stops =
      All-mono (IsApart n b.order_index) (IsApart (n + 1) b.order_index) (λ o e. (omega arith, e.1))
        b.stop_orders i.stops;
  rising_stops = i.rising_stops;
}

match_order-IsIndexed :
    (s : Side) (clk : Clock) (n : ℕ) (b : Book) (o : Order)
    → IsValid b
    → IsIndexed n b
    → IsIndexed n (match_order s clk b o).0
unfolding match_buy match_sell match_levels
match_order-IsIndexed buy clk n b o v i =
    let emit = match_outputs clk buy b.symbol_idx in
    let f = start_fill b o in
    record {
      bids =
          sweep_levels-other emit (λ p. p) (blocked buy) sell buy f b.asks b.bids (λ e. cc) i.asks
            i.bids;
      asks =
          sweep_levels-Indexed emit (λ p. p) (blocked buy) sell f b.asks v.asks.sorted i.rising_asks
            i.asks;
      rising_bids = i.rising_bids;
      rising_asks = sweep_levels-AllRising emit (λ p. p) (blocked buy) f b.asks i.rising_asks;
      keys = sweep_levels-KeysBelow emit (λ p. p) (blocked buy) n f b.asks i.keys;
      stops =
          All-mono (IsApart n b.order_index) (IsApart n (match_buy clk b o).0.order_index)
            (λ r e. (
              e.0,
              sweep_levels-none emit (λ p. p) (blocked buy) sell r.order_id f b.asks i.asks e.1,
            ))
            b.stop_orders i.stops;
      rising_stops = i.rising_stops;
    }
match_order-IsIndexed sell clk n b o v i =
    let emit = match_outputs clk sell b.symbol_idx in
    let f = start_fill b o in
    record {
      bids =
          sweep_levels-Indexed emit (λ p. p) (blocked sell) buy f b.bids v.bids.sorted i.rising_bids
            i.bids;
      asks =
          sweep_levels-other emit (λ p. p) (blocked sell) buy sell f b.bids b.asks (λ e. cc) i.bids
            i.asks;
      rising_bids = sweep_levels-AllRising emit (λ p. p) (blocked sell) f b.bids i.rising_bids;
      rising_asks = i.rising_asks;
      keys = sweep_levels-KeysBelow emit (λ p. p) (blocked sell) n f b.bids i.keys;
      stops =
          All-mono (IsApart n b.order_index) (IsApart n (match_sell clk b o).0.order_index)
            (λ r e. (
              e.0,
              sweep_levels-none emit (λ p. p) (blocked sell) buy r.order_id f b.bids i.bids e.1,
            ))
            b.stop_orders i.stops;
      rising_stops = i.rising_stops;
    }

rest_order-IsIndexed :
    (b : Book) (o : Order) → IsIndexed o.order_id b → IsIndexed (o.order_id + 1) (rest_order b o).0
unfolding rest_order
rest_order-IsIndexed b o i =
    let older = IsIndexed-mono o.order_id b i in grind (arith, insert_resting-IsIndexed)

execute-IsIndexed :
    (clk : Clock) (b : Book) (o : Order)
    → IsValid b
    → IsIndexed o.order_id b
    → IsIndexed (o.order_id + 1) (execute clk b o).0
unfolding execute
execute-IsIndexed clk b o v i =
    let (b1, o1, out1) = match_order o.side clk b o in
    let same = ap (λ (x : Order). x.order_id) (match_order-incoming o.side clk b o) in
    subst (λ n. IsIndexed (n + 1) (rest_order b1 o1).0) same
      (rest_order-IsIndexed b1 o1 (
        subst (λ n. IsIndexed n b1) (sym same)
          (match_order-IsIndexed o.side clk o.order_id b o v i)))

entered-IsIndexed :
    (clk : Clock) (b : Book) (o : Order)
    → IsValid b
    → IsIndexed b.next_order_id b
    → IsIndexed (b.next_order_id + 1) (new_order clk b o).0
unfolding accept
entered-IsIndexed clk b o v i =
    let b1 = take_order_id b in
    let o1 = accept clk b o in
    let v1 : IsValid b1 = record { bids = v.bids; asks = v.asks; stops = v.stops } in
    let i1 : IsIndexed b.next_order_id b1 = record {
      bids = i.bids;
      asks = i.asks;
      rising_bids = i.rising_bids;
      rising_asks = i.rising_asks;
      keys = i.keys;
      stops = i.stops;
      rising_stops = i.rising_stops;
    } in
    let older = IsIndexed-mono b.next_order_id b1 i1 in
    new_order_cases (λ r. IsIndexed (b.next_order_id + 1) r.0) clk b o
      (λ stop. record {
        bids = i.bids;
        asks = i.asks;
        rising_bids = i.rising_bids;
        rising_asks = i.rising_asks;
        keys = older.keys;
        stops =
            All-append (IsApart (b.next_order_id + 1) b.order_index) b.stop_orders (o1 ∷ [])
              older.stops
              (
                (
                  omega arith,
                  index_find-above b.next_order_id b.next_order_id b.order_index i.keys
                      (omega arith),
                ),
                tt,
              );
        rising_stops =
            IsRising-push b.stop_orders o1
              (All-mono (IsApart b.next_order_id b.order_index) (λ r. r.order_id < b.next_order_id)
                (λ r e. e.0) b.stop_orders i.stops)
              i.rising_stops;
      })
      (λ _ _. insert_resting-IsIndexed o1 b1 i1) older (λ _ _ _. execute-IsIndexed clk b1 o1 v1 i1)

pub new_order-next_order_id :
    (clk : Clock) (b : Book) (o : Order)
    → (new_order clk b o).0.next_order_id ≡ add64 b.next_order_id 1
new_order-next_order_id clk b o =
    let b1 = take_order_id b in
    let o1 = accept clk b o in
    new_order_cases (λ r. r.0.next_order_id ≡ b1.next_order_id) clk b o (λ _. refl)
      (λ _ _. (insert_resting-Keeps o1 b1).2) refl (λ _ _ _. (execute-Keeps clk b1 o1).2)

-- A new order keeps the index and the identifiers of a valid book in order, on every branch, if
-- the next identifiers do not wrap.
pub new_order-IsIndexed :
    (clk : Clock) (b : Book) (o : Order)
    → b.next_order_id + 1 < u64_mod
    → IsValid b
    → IsIndexed b.next_order_id b
    → let b' = (new_order clk b o).0 in IsIndexed b'.next_order_id b'
new_order-IsIndexed clk b o room v i =
    subst (λ n. IsIndexed n (new_order clk b o).0)
      (sym (new_order-next_order_id clk b o ∙ add64-eq b.next_order_id 1 room))
      (entered-IsIndexed clk b o v i)
