-- ===== src/Book/Entry/Branches.antt =====
-- The branches of `newOrder` in src/common/Book.cpp.
use eu_nex.Common.{◌≡◌, true, false, List, arith}
use eu_nex.Types.{Order, cts, is_stop}
use eu_nex.Book.State.{Output, Clock, Book, insert_resting}
use eu_nex.Book.Entry.{
  accept, take_order_id, accumulates, fok_short, park, acknowledge, reject, execute, new_order,
}

-- What holds of the result of each branch holds of the method's result.
pub new_order_cases {ℓ} :
    (P : Book × Order × List Output → Type ℓ) (clk : Clock) (b : Book) (o : Order)
    → let b1 = take_order_id b in
      let o1 = accept clk b o in
      (is_stop o.ord_type ≡ true → P (park b1 o1))
      → (is_stop o.ord_type ≡ false
          → accumulates b.phase ≡ true
          → P (acknowledge (insert_resting o1 b1) o1))
      → P (reject b1 o1)
      → (is_stop o.ord_type ≡ false
          → b.phase ≡ cts
          → fok_short b1 o1 ≡ false
          → P (execute clk b1 o1))
      → P (new_order clk b o)
unfolding new_order accept
new_order_cases P clk b o parked rests rejected executed = ground arith
