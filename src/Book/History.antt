-- ===== src/Book/History.antt =====
-- The calls that the actors make of a book (src/common/Book.cpp), one after the other.
use eu_nex.Common.{
  OnSome-some, ℕ, ◌+◌, ◌<◌, ◌≡◌, sym, subst, List, [], ◌∷◌, Option, none, some, Option-cases, inl,
  inr, u64_mod, length, keep,
}
use eu_nex.Common.Int.{ℤ}
use eu_nex.Types.{Order, ExecutionReport, TradingPhase}
use eu_nex.Book.State.{Output, reported, Clock, Book, new_book, set_phase}
use eu_nex.Book.Entry.{new_order}
use eu_nex.Book.Cancel.{cancel_order, modify_order}
use eu_nex.Book.Stops.{triggers, trigger_stop_orders}
use eu_nex.Book.Auction.{uncross}
use eu_nex.Book.Auction.Invariant.{uncross-Keeps, uncross-IsValid, uncross-IsIndexed}
use eu_nex.Book.Validity.{IsValid, new_book-IsValid}
use eu_nex.Book.Validity.Entry.{new_order-IsValid}
use eu_nex.Book.Validity.Cancel.{cancel_order-IsValid}
use eu_nex.Book.Validity.Modify.{modify_order-IsValid}
use eu_nex.Book.Validity.Stops.{trigger_stop_orders-IsValid}
use eu_nex.Book.Indexed.{IsIndexed, new_book-IsIndexed}
use eu_nex.Book.Indexed.Entry.{new_order-IsIndexed}
use eu_nex.Book.Indexed.Kept.{cancel_order-IsIndexed}
use eu_nex.Book.Indexed.Entered.{
  cancel_order-next_order_id, modify_order-IsIndexed, trigger_stop_orders-IsIndexed,
}

-- The methods that change a book, with their arguments.
pub data Request : Type 0 where
  enter : Order → Request
  cancel : ℕ → Request
  modify : ℕ → ℤ → ℕ → Request
  trigger : ℤ → Request
  switch : TradingPhase → Request
  auction : Request

-- A method that returns false has changed nothing; else its report is sent on.
abbrev pub settle : Book → Option (Book × ExecutionReport) → Book × List Output
settle b none = (b, [])
settle b (some (b', rpt)) = (b', reported rpt ∷ [])

unfoldable pub perform : Clock → Request → Book → Book × List Output
perform clk (enter o) b = let (b', o', out) = new_order clk b o in (b', out)
perform clk (cancel id) b = settle b (cancel_order id b)
perform clk (modify id p q) b = settle b (modify_order clk id p q b)
perform clk (trigger p) b = trigger_stop_orders clk p b
perform clk (switch phase) b = (set_phase phase b, [])
perform clk auction b = uncross clk b

-- A quantity is positive and fits 64 bits, and there is an identifier left for each new order.
unfoldable pub IsAllowed : Request → Book → Type 0
IsAllowed (enter o) b = (0 < o.quantity) × (o.quantity < u64_mod) × (b.next_order_id + 1 < u64_mod)
IsAllowed (modify id p q) b = (0 < q) × (q < u64_mod) × (b.next_order_id + 1 < u64_mod)
IsAllowed (trigger p) b = b.next_order_id + length (keep (triggers p) b.stop_orders) < u64_mod
IsAllowed _ b = Unit

-- The books that come of a new one by requests that are allowed.
pub data Reached (clk : Clock) : Book → Type 0 where
  fresh : (symbol_idx : ℕ) → Reached clk (new_book symbol_idx)
  next : (r : Request) (b : Book) → Reached clk b → IsAllowed r b → Reached clk (perform clk r b).0

-- Every side is in order, and the table of the identifiers is exact.
abbrev pub IsSound : Book → Type 0
IsSound b = IsValid b × IsIndexed b.next_order_id b

settle-IsSound :
    (b : Book) (r : Option (Book × ExecutionReport))
    → IsSound b
    → ((b' : Book) (rpt : ExecutionReport) → r ≡ some (b', rpt) → IsSound b')
    → IsSound (settle b r).0
settle-IsSound b r h k = elim (Option-cases r) [
  | inl e ↦ rw e h
  | inr ((b', rpt), e) ↦ rw e (k b' rpt e)
]

switch-IsIndexed :
    (p : TradingPhase) (n : ℕ) (b : Book) → IsIndexed n b → IsIndexed n (set_phase p b)
unfolding set_phase
switch-IsIndexed p n b i = record {
  bids = i.bids;
  asks = i.asks;
  rising_bids = i.rising_bids;
  rising_asks = i.rising_asks;
  keys = i.keys;
  stops = i.stops;
  rising_stops = i.rising_stops;
}

pub perform-IsSound :
    (clk : Clock) (r : Request) (b : Book) → IsAllowed r b → IsSound b → IsSound (perform clk r b).0
unfolding perform IsAllowed set_phase
perform-IsSound clk (enter o) b a (v, i) =
    (new_order-IsValid clk b o a.0 a.1 v, new_order-IsIndexed clk b o a.2 v i)
perform-IsSound clk (cancel id) b a (v, i) =
    settle-IsSound b (cancel_order id b) (v, i)
      (λ b' rpt e. (
        cancel_order-IsValid id b v e,
        subst (λ n. IsIndexed n b') (sym (OnSome-some _ _ (cancel_order-next_order_id id b) e))
            (cancel_order-IsIndexed id b v i e),
      ))
perform-IsSound clk (modify id p q) b a (v, i) =
    settle-IsSound b (modify_order clk id p q b) (v, i)
      (λ b' rpt e. (
        modify_order-IsValid clk id p q b a.0 a.1 v e,
        modify_order-IsIndexed clk id p q b a.2 v i e,
      ))
perform-IsSound clk (trigger p) b a (v, i) =
    (trigger_stop_orders-IsValid clk p b v, trigger_stop_orders-IsIndexed clk p b a v i)
perform-IsSound clk (switch phase) b a (v, i) =
    (record { bids = v.bids; asks = v.asks; stops = v.stops }, switch-IsIndexed phase _ b i)
perform-IsSound clk auction b a (v, i) = (
  uncross-IsValid clk b v i,
  subst (λ n. IsIndexed n (uncross clk b).0) (sym (uncross-Keeps clk b).2)
      (uncross-IsIndexed clk b v i),
)

fresh-IsSound : (symbol_idx : ℕ) → IsSound (new_book symbol_idx)
unfolding new_book
fresh-IsSound symbol_idx = (new_book-IsValid symbol_idx, new_book-IsIndexed symbol_idx)

-- Whatever requests are made of a new book, in whatever order, each with a positive quantity that
-- fits 64 bits and with an identifier left for each new order: both sides stay in order with no
-- empty level, the parked orders are stop orders, the table of the identifiers knows each resting
-- order by its side and price, and the orders of a level stand in the order of their arrival.
pub Reached-IsSound : (clk : Clock) (b : Book) → Reached clk b → IsSound b
Reached-IsSound clk b (fresh symbol_idx) = fresh-IsSound symbol_idx
Reached-IsSound clk b (next r b0 h a) = perform-IsSound clk r b0 a (Reached-IsSound clk b0 h)
