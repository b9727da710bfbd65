-- ===== src/Book/Queue/Tests.antt =====
-- The theorems about sequences of requests of src/common/Book.cpp, at the sample of the book.
use eu_nex.Common.{add64, ◌≡◌, [], ◌∷◌, arith, refl}
use eu_nex.Types.{buy, sell, limit, day, pre_open}
use eu_nex.Book.Levels.{push_order}
use eu_nex.Book.State.{Book, new_book, set_phase, insert_resting}
use eu_nex.Book.Entry.{new_order, accept}
use eu_nex.Book.History.{
  Request, enter, cancel, switch, auction, perform, IsAllowed, IsSound, fresh, next, Reached,
  Reached-IsSound,
}
use eu_nex.Book.Queue.Entry.{view}
use eu_nex.Book.Sweep.Quantities.{levels_qty}
use eu_nex.Book.Queue.Prices.{FitsWords}
use eu_nex.Book.Queue.Releases.{view_pair}
use eu_nex.Book.Queue.Refines.{
  IsServed, AllServed, perform_all, promise_all, perform_all-promise_all,
}
use eu_nex.Book.Tests.{clk, order}

abbrev early_bid : Request
early_bid = enter (order 0 buy limit day 101 5 0)

abbrev early_ask : Request
early_ask = enter (order 0 sell limit day 99 3 0)

-- Two orders before the opening, which cross.
abbrev opened : Book
opened =
    (perform clk early_ask
      (perform clk early_bid (perform clk (switch pre_open) (new_book 7)).0).0).0

opened-Reached : Reached clk opened
unfolding IsAllowed perform set_phase new_book new_order accept insert_resting add64
opened-Reached =
    next early_ask _
      (next early_bid _ (next (switch pre_open) _ (fresh 7) tt)
        (omega arith, omega arith, omega arith))
      (omega arith, omega arith, omega arith)

Reached-IsSound_example : IsSound (perform clk auction opened).0
unfolding IsAllowed
Reached-IsSound_example =
    Reached-IsSound clk (perform clk auction opened).0 (next auction opened opened-Reached tt)

opened-bids : levels_qty opened.bids ≡ 5
unfolding perform new_order accept set_phase insert_resting push_order new_book
opened-bids = refl

opened-asks : levels_qty opened.asks ≡ 3
unfolding perform new_order accept set_phase insert_resting push_order new_book
opened-asks = refl

opened-FitsWords : FitsWords opened
opened-FitsWords = (omega (arith, opened-bids), omega (arith, opened-asks))

perform_all-promise_all_example :
    let rs = auction ∷ cancel 0 ∷ switch pre_open ∷ [] in
    view_pair (perform_all clk rs opened) ≡ promise_all clk rs (view opened)
unfolding IsAllowed IsServed AllServed
perform_all-promise_all_example =
    perform_all-promise_all clk (auction ∷ cancel 0 ∷ switch pre_open ∷ []) opened
      (Reached-IsSound clk opened opened-Reached) (tt, opened-FitsWords, (tt, tt, (tt, tt, tt)))
