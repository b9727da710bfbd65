-- ===== src/Book/Tests.antt =====
-- A sample of books and orders for src/common/Book.cpp, and the theorems at these.
use eu_nex.Common.{
  List, ℕ, ◌+◌, ◌≤◌, ◌<◌, ◌≡◌, refl, ◌⊎◌, ◌↔◌, [], ◌∷◌, Option, none, some, arith, All,
  if◌then◌else◌,
}
use eu_nex.Common.Int.{pos, eq_ℤ}
use eu_nex.Types.{
  Side, buy, sell, Order, OrderType, limit, stop_market, TimeInForce, day, fok, new, filled,
  ExecutionReport, cts, pre_open,
}
use eu_nex.Book.Levels.{index_find}
use eu_nex.Book.State.{Clock, Book}
use eu_nex.Book.Sweep.Quantities.{levels_qty, traded_total}
use eu_nex.Book.Entry.{accept, fok_short, match_order, new_order}
use eu_nex.Book.Sweep.Quantities.{reachable_qty}
use eu_nex.Book.Entry.Fills.{
  crossing_qty, MatchesUpTo, match_order-MatchesUpTo, FillsUpTo, new_order-FillsUpTo,
}
use eu_nex.Book.Entry.Prices.{WithinLimit, new_order-WithinLimit}
use eu_nex.Book.Entry.Fok.{IsRefused, new_order-fok}
use eu_nex.Book.Cancel.{
  cancel_order, cancel_stop_order, take_order, take_at, cancel_resting, modify_order, replacement,
}
use eu_nex.Book.Stops.{trigger_stop_orders}
use eu_nex.Book.Auction.{get_iop, volume_at, uncross}
use eu_nex.Book.Auction.Price.{get_iop-max}
use eu_nex.Book.Auction.Crossing.{uncross-volume}
use eu_nex.Book.Auction.Trades.{AtPrice, uncross-AtPrice}
use eu_nex.Book.Validity.{IsValid, IsUncrossed}
use eu_nex.Book.Validity.Entry.{new_order-IsValid}
use eu_nex.Book.Validity.Uncrossed.{new_order-IsUncrossed}
use eu_nex.Book.Validity.Modify.{modify_order_flips_buy}
use eu_nex.Book.Validity.Stops.{
  Parted, Entered, trigger_stop_orders-stop_orders, trigger_stop_orders-IsUncrossed,
}
use eu_nex.Book.Indexed.{IsIndexed}
use eu_nex.Book.Indexed.Cancel.{IsAbsent, cancel_order-none_iff, cancel_order-IsAbsent}

abbrev pub clk : Clock
clk = record { entry_time = λ id. id; match_time = λ id. id }

abbrev pub order : ℕ → Side → OrderType → TimeInForce → ℕ → ℕ → ℕ → Order
order id side ord_type tif price quantity stop_price = record {
  order_id = id;
  cl_ord_id = id;
  symbol_idx = 7;
  side = side;
  ord_type = ord_type;
  tif = tif;
  price = pos price;
  quantity = quantity;
  remaining_qty = quantity;
  entry_time = id;
  session_id = 1;
  status = new;
  stop_price = pos stop_price;
}

-- One bid, two asks at one price, and a parked buy stop.
abbrev pub book : Book
book = record {
  symbol_idx = 7;
  next_trade_id = 1;
  next_order_id = 5;
  last_trade_price = pos 105;
  phase = cts;
  bids = record { price = pos 100; orders = order 1 buy limit day 100 10 0 ∷ [] } ∷ [];
  asks =
      record {
        price = pos 105;
        orders = order 2 sell limit day 105 7 0 ∷ order 3 sell limit day 105 4 0 ∷ [];
      }
      ∷ [];
  order_index = (1, buy, pos 100) ∷ (2, sell, pos 105) ∷ (3, sell, pos 105) ∷ [];
  stop_orders = order 4 buy stop_market day 0 3 105 ∷ [];
}

-- The same with the asks at 98, below the bid.
abbrev pub crossed : Book
crossed = record book {
  phase = pre_open;
  asks =
      record {
        price = pos 98;
        orders = order 2 sell limit day 98 7 0 ∷ order 3 sell limit day 98 4 0 ∷ [];
      }
      ∷ [];
  order_index = (1, buy, pos 100) ∷ (2, sell, pos 98) ∷ (3, sell, pos 98) ∷ [];
}

abbrev pub bid : Order
bid = order 0 buy limit day 106 9 0

abbrev pub fok_bid : Order
fok_bid = order 0 buy limit fok 106 12 0

pub book-IsValid : IsValid book
book-IsValid = record {
  bids = record { sorted = ground arith; none_empty = ground arith; resting = ground arith };
  asks = record { sorted = ground arith; none_empty = ground arith; resting = ground arith };
  stops = ground arith;
}

pub crossed-IsValid : IsValid crossed
crossed-IsValid = record {
  bids = record { sorted = ground arith; none_empty = ground arith; resting = ground arith };
  asks = record { sorted = ground arith; none_empty = ground arith; resting = ground arith };
  stops = ground arith;
}

pub book-IsIndexed : IsIndexed 5 book
unfolding index_find
book-IsIndexed = record {
  bids = ground arith;
  asks = ground arith;
  rising_bids = ground arith;
  rising_asks = ground arith;
  keys = ground arith;
  stops = ground arith;
  rising_stops = ground arith;
}

match_order-MatchesUpTo_example :
    let (b', o', out) = match_order buy clk book bid in MatchesUpTo 11 bid book.asks b'.asks o' out
unfolding reachable_qty
match_order-MatchesUpTo_example = match_order-MatchesUpTo buy clk book bid

new_order-FillsUpTo_example : FillsUpTo 11 book bid (new_order clk book bid)
unfolding reachable_qty fok_short accept
new_order-FillsUpTo_example = new_order-FillsUpTo clk book bid refl refl refl (omega arith)

new_order-fok_example :
    let r = new_order clk book fok_bid in
    ((crossing_qty book fok_bid < 12) × IsRefused clk book fok_bid r)
    ⊎ ((12 ≤ crossing_qty book fok_bid) × (r.1.status ≡ filled) × (traded_total r.2 ≡ 12))
new_order-fok_example = new_order-fok clk book fok_bid refl refl refl (omega arith) (omega arith)

new_order-IsValid_example : IsValid (new_order clk book bid).0
new_order-IsValid_example = new_order-IsValid clk book bid (omega arith) (omega arith) book-IsValid

new_order-IsUncrossed_example : IsUncrossed (new_order clk book bid).0
new_order-IsUncrossed_example = new_order-IsUncrossed clk book bid refl book-IsValid (ground arith)

-- The book that a request answers with.
abbrev answered : Option (Book × ExecutionReport) → Book
answered none = book
answered (some (b, rpt)) = b

modify_order_flips_buy_example :
    let b' = answered (modify_order clk 1 (pos 101) 5 book) in
    (levels_qty b'.asks ≡ 16) × (levels_qty b'.bids ≤ 10)
unfolding modify_order replacement cancel_order cancel_stop_order take_order take_at cancel_resting
    index_find
modify_order_flips_buy_example =
    modify_order_flips_buy clk 1 (pos 101) (pos 100) 5 book refl refl (ground arith) refl

trigger_stop_orders-stop_orders_example :
    let (b', out) = trigger_stop_orders clk (pos 105) book in
    (waiting : List Order) × ((fired : List Order) × (Parted
          (pos 105)
          book.stop_orders
          waiting
          fired
        × (b'.stop_orders ≡ waiting)
        × Entered clk (record book { stop_orders = waiting }) fired b' out))
trigger_stop_orders-stop_orders_example = trigger_stop_orders-stop_orders clk (pos 105) book

trigger_stop_orders-IsUncrossed_example : IsUncrossed (trigger_stop_orders clk (pos 105) book).0
trigger_stop_orders-IsUncrossed_example =
    trigger_stop_orders-IsUncrossed clk (pos 105) book refl book-IsValid (ground arith)

cancel_order-none_iff_example : (cancel_order 8 book ≡ none) ↔ IsAbsent 8 book
cancel_order-none_iff_example = cancel_order-none_iff 8 book book-IsValid book-IsIndexed

cancel_order-IsAbsent_example :
    let b' = answered (cancel_order 2 book) in IsAbsent 2 b' × (cancel_order 2 b' ≡ none)
unfolding cancel_order cancel_stop_order take_order take_at cancel_resting index_find
cancel_order-IsAbsent_example = cancel_order-IsAbsent 2 book book-IsValid book-IsIndexed refl

get_iop-max_example : volume_at crossed (pos 98) ≤ volume_at crossed (get_iop crossed)
get_iop-max_example = get_iop-max crossed (pos 98) (omega arith) (omega arith)

uncross-volume_example :
    let (b', out) = uncross clk crossed in
    (traded_total out
      ≡ (if eq_ℤ (get_iop crossed) (pos 0) then 0 else volume_at crossed (get_iop crossed)))
    × (levels_qty b'.bids + traded_total out ≡ 10)
    × (levels_qty b'.asks + traded_total out ≡ 11)
uncross-volume_example = uncross-volume clk crossed crossed-IsValid (omega arith) (omega arith)

new_order-WithinLimit_example : All (WithinLimit buy bid) (new_order clk book bid).2
new_order-WithinLimit_example = new_order-WithinLimit clk book bid

uncross-AtPrice_example : All (AtPrice (get_iop crossed)) (uncross clk crossed).1
uncross-AtPrice_example = uncross-AtPrice clk crossed
