-- ===== src/Book/Queue/Refines.antt =====
-- A book (src/common/Book.cpp) keeps the promise of the queues, over any sequence of requests.
use eu_nex.Common.{
  ◌<◌, ◌≡◌, refl, ap, ◌∙◌, not, List, [], ◌∷◌, ◌++◌, Option, none, some, keep, u64_mod,
}
use eu_nex.Types.{ExecutionReport}
use eu_nex.Book.State.{Output, reported, Clock, Book, set_phase}
use eu_nex.Book.Sweep.Quantities.{levels_qty}
use eu_nex.Book.Entry.{opposite_levels}
use eu_nex.Book.Cancel.{cancel_order, modify_order}
use eu_nex.Book.Stops.{triggers}
use eu_nex.Book.History.{
  Request, enter, cancel, modify, trigger, switch, auction, settle, perform, IsAllowed, IsSound,
  perform-IsSound,
}
use eu_nex.Book.Queue.{Market, admit, withdraw, amend, release, open_market}
use eu_nex.Book.Queue.Prices.{FitsWords}
use eu_nex.Book.Queue.Openings.{uncross-open_market}
use eu_nex.Book.Queue.Entry.{view, new_order-admit}
use eu_nex.Book.Queue.Amends.{view_option, cancel_order-withdraw, modify_order-amend}
use eu_nex.Book.Queue.Releases.{HasRoom, view_pair, trigger_stop_orders-release}

abbrev pub settle_queue : Market → Option (Market × ExecutionReport) → Market × List Output
settle_queue m none = (m, [])
settle_queue m (some (m', rpt)) = (m', reported rpt ∷ [])

-- What a request asks of the queues.
unfoldable pub promise : Clock → Request → Market → Market × List Output
promise clk (enter o) m = admit clk m o
promise clk (cancel id) m = settle_queue m (withdraw id m)
promise clk (modify id p q) m = settle_queue m (amend clk id p q m)
promise clk (trigger p) m = release clk p m
promise clk (switch phase) m = (record m { phase = phase }, [])
promise clk auction m = open_market clk m

-- Less than 2^64 rests against each order that is entered, and on each side at an auction.
unfoldable pub IsServed : Clock → Request → Book → Type 0
IsServed clk (enter o) b = levels_qty (opposite_levels o.side b) < u64_mod
IsServed clk (trigger p) b =
    HasRoom clk (keep (triggers p) b.stop_orders)
      (record b { stop_orders = keep (λ o. not (triggers p o)) b.stop_orders })
IsServed clk auction b = FitsWords b
IsServed clk _ b = Unit

settle-view :
    (b : Book) (r : Option (Book × ExecutionReport))
    → view_pair (settle b r) ≡ settle_queue (view b) (view_option r)
settle-view b none = refl
settle-view b (some r) = refl

perform-promise :
    (clk : Clock) (r : Request) (b : Book)
    → IsSound b
    → IsServed clk r b
    → view_pair (perform clk r b) ≡ promise clk r (view b)
unfolding perform promise IsServed view set_phase
perform-promise clk (enter o) b (v, i) served = new_order-admit clk b o v served
perform-promise clk (cancel id) b (v, i) served =
    settle-view b (cancel_order id b) ∙ ap (settle_queue (view b)) (cancel_order-withdraw id b v i)
perform-promise clk (modify id p q) b (v, i) served =
    settle-view b (modify_order clk id p q b)
    ∙ ap (settle_queue (view b)) (modify_order-amend clk id p q b v i)
perform-promise clk (trigger p) b (v, i) served = trigger_stop_orders-release clk p b v served
perform-promise clk (switch phase) b sound served = refl
perform-promise clk auction b (v, i) served = uncross-open_market clk b v served

-- A sequence of requests, on a book and on its queues.
unfoldable pub perform_all : Clock → List Request → Book → Book × List Output
perform_all clk [] b = (b, [])
perform_all clk (r ∷ rs) b =
    let (b1, out1) = perform clk r b in let (b2, out2) = perform_all clk rs b1 in (b2, out1 ++ out2)

unfoldable pub promise_all : Clock → List Request → Market → Market × List Output
promise_all clk [] m = (m, [])
promise_all clk (r ∷ rs) m =
    let (m1, out1) = promise clk r m in let (m2, out2) = promise_all clk rs m1 in (m2, out1 ++ out2)

unfoldable pub AllServed : Clock → List Request → Book → Type 0
AllServed clk [] b = Unit
AllServed clk (r ∷ rs) b = IsAllowed r b × IsServed clk r b × AllServed clk rs (perform clk r b).0

abbrev then_promise : Clock → List Request → Market × List Output → Market × List Output
then_promise clk rs t = let (m, out) = promise_all clk rs t.0 in (m, t.1 ++ out)

-- Entries, cancellations, modifications, triggers, changes of phase and auctions, in any sequence,
-- from a valid book with an exact table of identifiers, where at each request the quantity is
-- positive and fits 64 bits, there are identifiers left, and less than 2^64 rests against an order
-- that is entered and on each side at an auction: the book shows the same trades and reports, in the same order, as the queues that serve
-- price first and then time, and it ends up standing for the queues that they end up with.
pub perform_all-promise_all :
    (clk : Clock) (rs : List Request) (b : Book)
    → IsSound b
    → AllServed clk rs b
    → view_pair (perform_all clk rs b) ≡ promise_all clk rs (view b)
unfolding perform_all promise_all AllServed
perform_all-promise_all clk [] b sound served = refl
perform_all-promise_all clk (r ∷ rs) b sound (allowed, now, later) =
    let (b1, out1) = perform clk r b in
    let rest = perform_all-promise_all clk rs b1 (perform-IsSound clk r b allowed sound) later in
    ap (λ (t : Market × List Output). (t.0, out1 ++ t.1)) rest
    ∙ ap (then_promise clk rs) (perform-promise clk r b sound now)
