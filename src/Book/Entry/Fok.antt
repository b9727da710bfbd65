-- ===== src/Book/Entry/Fok.antt =====
-- The FOK check of `newOrder` (src/common/Book.cpp): all or nothing.
use eu_nex.Common.{
  ℕ, ◌+◌, ◌≤◌, ◌<◌, ◌≡◌, ◌⊎◌, inl, inr, true, false, List, [], ◌∷◌, arith, ltb, Bool-cases, u64_mod,
  add64, refl, sym, subst, add64-eq, if◌then◌else◌,
}
use eu_nex.Types.{Side, Order, cts, is_stop, is_fok, filled, rejected, fok}
use eu_nex.Book.Levels.{Levels}
use eu_nex.Book.State.{Output, reported, Clock, Book}
use eu_nex.Common.Int.{pos}
use eu_nex.Book.Sweep.Quantities.{orders_qty, levels_qty, reachable_qty, traded_total}
use eu_nex.Book.Matching.{blocked}
use eu_nex.Book.Entry.{
  accept, take_order_id, add_remaining, available_qty, opposite_levels, fok_short, new_order,
  reject,
}
use eu_nex.Book.Entry.Fills.{
  crossing_qty, crossing_qty-accept, new_order-FillsUpTo, opposite_levels-take_order_id,
}

pub add_remaining-eq :
    (acc : ℕ) (os : List Order)
    → acc + orders_qty os < u64_mod
    → add_remaining acc os ≡ acc + orders_qty os
unfolding add_remaining
add_remaining-eq acc [] h = omega arith
add_remaining-eq acc (o ∷ os) h =
    ground (arith, add64-eq acc o.remaining_qty, add_remaining-eq (acc + o.remaining_qty) os)

-- The loop stops early, and still its test tells whether enough rests within the limit.
available_qty-lt :
    (s : Side) (o : Order) (acc : ℕ) (ls : Levels)
    → acc + levels_qty ls < u64_mod
    → ltb (available_qty s o acc ls) o.quantity
      ≡ ltb (acc + reachable_qty (blocked s o) ls) o.quantity
unfolding available_qty reachable_qty
available_qty-lt s o acc [] h = ground arith
available_qty-lt s o acc (l ∷ ls) h =
    ground
      (arith, add_remaining-eq acc l.orders, available_qty-lt s o (acc + orders_qty l.orders) ls)

pub fok_short-eq :
    (b : Book) (o : Order)
    → levels_qty (opposite_levels o.side b) < u64_mod
    → fok_short b o ≡ (if is_fok o.tif then ltb (crossing_qty b o) o.quantity else false)
unfolding fok_short
fok_short-eq b o h = ground (arith, available_qty-lt o.side o 0 (opposite_levels o.side b))

-- The order is refused: it comes back under the next identifier with all of its quantity, the one
-- output is a report that says so, and of the book only the next identifier changes.
abbrev pub IsRefused : Clock → Book → Order → Book × Order × List Output → Type 0
IsRefused clk b o r =
    (r.0 ≡ record b { next_order_id = add64 b.next_order_id 1 })
    × (r.1 ≡ record o {
      order_id = b.next_order_id;
      remaining_qty = o.quantity;
      status = rejected;
      entry_time = clk.entry_time b.next_order_id;
    })
    × (r.2
        ≡ reported (record {
          order_id = b.next_order_id;
          cl_ord_id = o.cl_ord_id;
          status = rejected;
          filled_qty = 0;
          remaining_qty = o.quantity;
          last_price = pos 0;
          last_qty = 0;
          trade_id = 0;
        })
          ∷ [])

new_order-reject :
    (clk : Clock) (b : Book) (o : Order)
    → b.phase ≡ cts
    → is_stop o.ord_type ≡ false
    → fok_short (take_order_id b) (accept clk b o) ≡ true
    → new_order clk b o ≡ reject (take_order_id b) (accept clk b o)
unfolding new_order accept
new_order-reject clk b o phase plain short = ground arith

new_order-IsRefused :
    (clk : Clock) (b : Book) (o : Order)
    → b.phase ≡ cts
    → is_stop o.ord_type ≡ false
    → fok_short (take_order_id b) (accept clk b o) ≡ true
    → IsRefused clk b o (new_order clk b o)
unfolding accept
new_order-IsRefused clk b o phase plain short =
    subst (IsRefused clk b o) (sym (new_order-reject clk b o phase plain short)) (refl, refl, refl)

fok_short-fok :
    (clk : Clock) (b : Book) (o : Order)
    → o.tif ≡ fok
    → levels_qty (opposite_levels o.side b) < u64_mod
    → fok_short (take_order_id b) (accept clk b o) ≡ ltb (crossing_qty b o) o.quantity
unfolding accept
fok_short-fok clk b o is room = ground (
  arith,
  fok_short-eq (take_order_id b) (accept clk b o),
  crossing_qty-accept clk b o,
  opposite_levels-take_order_id o.side b,
)

-- A new FOK order in continuous trading, for a positive quantity, against less than 2^64 resting
-- on the other side: if less than its quantity rests within its limit it comes back rejected with
-- all of its quantity, the one report says that, and nothing of the book changes but the next
-- identifier; otherwise it is filled, and trades exactly its quantity.
pub new_order-fok :
    (clk : Clock) (b : Book) (o : Order)
    → b.phase ≡ cts
    → is_stop o.ord_type ≡ false
    → o.tif ≡ fok
    → 0 < o.quantity
    → levels_qty (opposite_levels o.side b) < u64_mod
    → let r = new_order clk b o in
      ((crossing_qty b o < o.quantity) × IsRefused clk b o r)
      ⊎ ((o.quantity ≤ crossing_qty b o) × (r.1.status ≡ filled) × (traded_total r.2 ≡ o.quantity))
new_order-fok clk b o phase plain is h room =
    elim (Bool-cases (fok_short (take_order_id b) (accept clk b o))) [
      | inl short ↦ inl (
        ground (arith, fok_short-fok clk b o is room),
        new_order-IsRefused clk b o phase plain short,
      )
      | inr pass ↦
          let fills = new_order-FillsUpTo clk b o phase plain pass h in
          let enough = fok_short-fok clk b o is room in
          inr (ground arith, ground arith, ground arith)
    ]
