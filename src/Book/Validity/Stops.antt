-- ===== src/Book/Validity/Stops.antt =====
-- `triggerStopOrders` of src/common/Book.cpp: which stop orders stay, and the invariants.
use eu_nex.Common.{
  ◌≢◌, ◌⊎◌, Bool-cases, inl, inr, ◌++◌, ◌≡◌, refl, ◌∙◌, Bool, true, false, not, List, [], ◌∷◌,
  arith, All, keep,
}
use eu_nex.Common.Int.{ℤ, ◌<ℤ◌, ◌≤ℤ◌}
use eu_nex.Types.{
  stop_limit, Side, buy, sell, market, limit, Order, OrderType, stop_market, is_stop,
}
use eu_nex.Book.State.{Output, Clock, Book}
use eu_nex.Book.Entry.{accept, take_order_id, new_order, accumulates}
use eu_nex.Book.Entry.Frame.{Keeps, insert_resting-Keeps, execute-Keeps}
use eu_nex.Book.Entry.Branches.{new_order_cases}
use eu_nex.Book.Stops.{
  triggers, triggers_at, converted_price, converted_type, convert, enter_all, trigger_stop_orders,
}
use eu_nex.Book.Validity.{IsValid, IsUncrossed, IsParked}
use eu_nex.Book.Validity.Entry.{new_order-IsValid}
use eu_nex.Book.Validity.Uncrossed.{new_order-IsUncrossed}

new_order-Keeps :
    (clk : Clock) (b : Book) (o : Order)
    → is_stop o.ord_type ≡ false
    → Keeps (take_order_id b) (new_order clk b o).0
new_order-Keeps clk b o plain =
    new_order_cases (λ r. Keeps (take_order_id b) r.0) clk b o (λ stop. cc)
      (λ _ _. insert_resting-Keeps (accept clk b o) (take_order_id b)) (refl, refl, refl)
      (λ _ _ _. execute-Keeps clk (take_order_id b) (accept clk b o))

-- No order changes the phase.
pub new_order-phase : (clk : Clock) (b : Book) (o : Order) → (new_order clk b o).0.phase ≡ b.phase
new_order-phase clk b o =
    new_order_cases (λ r. r.0.phase ≡ b.phase) clk b o (λ _. refl)
      (λ _ _. (insert_resting-Keeps (accept clk b o) (take_order_id b)).1) refl
      (λ _ _ _. (execute-Keeps clk (take_order_id b) (accept clk b o)).1)

converted_plain : (t : OrderType) → is_stop (converted_type t) ≡ false
converted_plain stop_market = refl
converted_plain _ = refl

enter_all-stop_orders :
    (clk : Clock) (b : Book) (os : List Order) → (enter_all clk b os).0.stop_orders ≡ b.stop_orders
unfolding enter_all convert
enter_all-stop_orders clk b [] = refl
enter_all-stop_orders clk b (o ∷ os) =
    let first = new_order-Keeps clk b (convert o) (converted_plain o.ord_type) in
    enter_all-stop_orders clk (new_order clk b (convert o)).0 os ∙ first.0

pub All-keep {ℓ} :
    (P : Order → Type ℓ) (p : Order → Bool) (os : List Order) → All P os → All P (keep p os)
All-keep P p [] h = tt
All-keep P p (o ∷ os) h = ground (arith, All-keep P p os h.1)

-- A buy stop waits while trades are below its stop price, a sell stop while they are above.
abbrev pub WaitsAt : Side → ℤ → ℤ → Type 0
WaitsAt buy trade_price stop_price = trade_price <ℤ stop_price
WaitsAt sell trade_price stop_price = stop_price <ℤ trade_price

abbrev pub FiresAt : Side → ℤ → ℤ → Type 0
FiresAt buy trade_price stop_price = stop_price ≤ℤ trade_price
FiresAt sell trade_price stop_price = trade_price ≤ℤ stop_price

-- The orders that wait and those that fire, each in the order in which they stood.
pub data Parted (trade_price : ℤ) : List Order → List Order → List Order → Type 0 where
  no_more : Parted trade_price [] [] []
  waits :
      {o : Order} {os waiting fired : List Order}
      → WaitsAt o.side trade_price o.stop_price
      → Parted trade_price os waiting fired
      → Parted trade_price (o ∷ os) (o ∷ waiting) fired
  fires :
      {o : Order} {os waiting fired : List Order}
      → FiresAt o.side trade_price o.stop_price
      → Parted trade_price os waiting fired
      → Parted trade_price (o ∷ os) waiting (o ∷ fired)

-- The order `x` is what a stop order becomes: a market order, or a limit order at its price, for
-- what it still wants and for the same client.
pub record Becomes (o x : Order) : Type 0 where
  pub cl_ord_id : x.cl_ord_id ≡ o.cl_ord_id
  pub session_id : x.session_id ≡ o.session_id
  pub symbol_idx : x.symbol_idx ≡ o.symbol_idx
  pub side : x.side ≡ o.side
  pub tif : x.tif ≡ o.tif
  pub quantity : x.quantity ≡ o.remaining_qty
  pub terms :
      ((o.ord_type ≡ stop_market) × (x.ord_type ≡ market))
      ⊎ ((o.ord_type ≢ stop_market) × (x.ord_type ≡ limit) × (x.price ≡ o.price))

-- Each order is entered as a new one, in turn, with all that comes of it.
pub data Entered (clk : Clock) : Book → List Order → Book → List Output → Type 0 where
  all_entered : {b : Book} → Entered clk b [] b []
  then_enter :
      {b b2 : Book} {o : Order} {os : List Order} {out2 : List Output}
      → (x : Order) → Becomes o x
      → Entered clk (new_order clk b x).0 os b2 out2
      → Entered clk b (o ∷ os) b2 ((new_order clk b x).2 ++ out2)

fires_at : (p : ℤ) (s : Side) (q : ℤ) → triggers_at s p q ≡ true → FiresAt s p q
fires_at p buy q h = ground arith
fires_at p sell q h = ground arith

waits_at : (p : ℤ) (s : Side) (q : ℤ) → triggers_at s p q ≡ false → WaitsAt s p q
waits_at p buy q h = ground arith
waits_at p sell q h = ground arith

convert_terms :
    (t : OrderType) (p : ℤ)
    → ((t ≡ stop_market) × (converted_type t ≡ market))
      ⊎ ((t ≢ stop_market) × (converted_type t ≡ limit) × (converted_price t p ≡ p))
convert_terms stop_market p = inl (refl, refl)
convert_terms market p = inr (λ e. ground arith, refl, refl)
convert_terms limit p = inr (λ e. ground arith, refl, refl)
convert_terms stop_limit p = inr (λ e. ground arith, refl, refl)

parted :
    (trade_price : ℤ) (os : List Order)
    → Parted trade_price os
        (keep (λ o. not (triggers trade_price o)) os)
        (keep (triggers trade_price) os)
parted p [] = no_more
parted p (o ∷ os) = elim (Bool-cases (triggers p o)) [
  | inl now ↦ rw now (fires (fires_at p o.side o.stop_price now) (parted p os))
  | inr later ↦ rw later (waits (waits_at p o.side o.stop_price later) (parted p os))
]

convert-Becomes : (o : Order) → Becomes o (convert o)
unfolding convert
convert-Becomes o = record {
  cl_ord_id = refl;
  session_id = refl;
  symbol_idx = refl;
  side = refl;
  tif = refl;
  quantity = refl;
  terms = convert_terms o.ord_type o.price;
}

enter_all-Entered :
    (clk : Clock) (b : Book) (os : List Order)
    → Entered clk b os (enter_all clk b os).0 (enter_all clk b os).1
unfolding enter_all
enter_all-Entered clk b [] = all_entered
enter_all-Entered clk b (o ∷ os) =
    then_enter (convert o) (convert-Becomes o)
      (enter_all-Entered clk (new_order clk b (convert o)).0 os)

-- The stop orders part into those that wait and those that the trade fires: a buy stop fires at its
-- stop price or above, a sell stop at its stop price or below, and the rest wait. The book keeps
-- those that wait, in their order, whatever the others go on to trade; those that fire are entered
-- in their order, each as the market or limit order that it becomes, and the outputs are theirs.
pub trigger_stop_orders-stop_orders :
    (clk : Clock) (trade_price : ℤ) (b : Book)
    → let (b', out) = trigger_stop_orders clk trade_price b in
      (waiting : List Order) × ((fired : List Order) × (Parted trade_price b.stop_orders waiting
            fired
          × (b'.stop_orders ≡ waiting)
          × Entered clk (record b { stop_orders = waiting }) fired b' out))
unfolding trigger_stop_orders
trigger_stop_orders-stop_orders clk trade_price b =
    let waiting = keep (λ o. not (triggers trade_price o)) b.stop_orders in
    let fired = keep (triggers trade_price) b.stop_orders in
    let b1 = record b { stop_orders = waiting } in
    (
      waiting,
      (
        fired,
        (
          parted trade_price b.stop_orders,
          enter_all-stop_orders clk b1 fired,
          enter_all-Entered clk b1 fired,
        ),
      ),
    )

pub enter_all-IsValid :
    (clk : Clock) (b : Book) (os : List Order)
    → All IsParked os
    → IsValid b
    → IsValid (enter_all clk b os).0
unfolding enter_all convert
enter_all-IsValid clk b [] h v = v
enter_all-IsValid clk b (o ∷ os) h v =
    enter_all-IsValid clk (new_order clk b (convert o)).0 os h.1
      (new_order-IsValid clk b (convert o) h.0.1 (omega arith) v)

enter_all-IsUncrossed :
    (clk : Clock) (b : Book) (os : List Order)
    → accumulates b.phase ≡ false
    → All IsParked os
    → IsValid b
    → IsUncrossed b
    → IsUncrossed (enter_all clk b os).0
unfolding enter_all convert
enter_all-IsUncrossed clk b [] phase h v u = u
enter_all-IsUncrossed clk b (o ∷ os) phase h v u =
    let same = (new_order-Keeps clk b (convert o) (converted_plain o.ord_type)).1 in
    enter_all-IsUncrossed clk (new_order clk b (convert o)).0 os (rw same phase) h.1
      (new_order-IsValid clk b (convert o) h.0.1 (omega arith) v)
      (new_order-IsUncrossed clk b (convert o) phase v u)

-- Triggering keeps a valid book valid, however many of the orders that it enters are traded.
pub trigger_stop_orders-IsValid :
    (clk : Clock) (trade_price : ℤ) (b : Book)
    → IsValid b
    → IsValid (trigger_stop_orders clk trade_price b).0
unfolding trigger_stop_orders
trigger_stop_orders-IsValid clk trade_price b v =
    enter_all-IsValid clk _ (keep (triggers trade_price) b.stop_orders)
      (All-keep IsParked (triggers trade_price) b.stop_orders v.stops)
      (record {
        bids = v.bids;
        asks = v.asks;
        stops = All-keep IsParked (λ o. not (triggers trade_price o)) b.stop_orders v.stops;
      })

-- Outside the phases that accumulate orders, triggering leaves no bid of a valid book at or above
-- an ask, if there was none before.
pub trigger_stop_orders-IsUncrossed :
    (clk : Clock) (trade_price : ℤ) (b : Book)
    → accumulates b.phase ≡ false
    → IsValid b
    → IsUncrossed b
    → IsUncrossed (trigger_stop_orders clk trade_price b).0
unfolding trigger_stop_orders
trigger_stop_orders-IsUncrossed clk trade_price b phase v u =
    enter_all-IsUncrossed clk _ (keep (triggers trade_price) b.stop_orders) phase
      (All-keep IsParked (triggers trade_price) b.stop_orders v.stops)
      (record {
        bids = v.bids;
        asks = v.asks;
        stops = All-keep IsParked (λ o. not (triggers trade_price o)) b.stop_orders v.stops;
      })
      u
