-- ===== src/Actors/AiTrader.antt =====
-- src/actors/AITraderActor.hpp and src/actors/AITraderActor.cpp: the members that trade by
-- themselves. The random engine with its uniform distributions is a parameter. Sums of prices have 64
-- bits.
pub mod Prices
pub mod Bounds
pub mod Rounds
pub mod Tests
use eu_nex.Common.{
  ℕ, zero, suc, ◌+◌, ◌-◌, ◌*◌, ◌/◌, ◌%◌, Bool, true, false, ◌&&◌, ◌||◌, List, [], ◌∷◌, ◌++◌, Option,
  none, some, ◌>>=◌, ◌==◌, ltb, if◌then◌else◌, is_empty, length, lookup, insert, get_or, add64,
  u64_mod, sum_by, map,
}
use eu_nex.Common.Int.{ℤ, pos, negsuc, add_i64, neg, ltb_ℤ, leb_ℤ, eq_ℤ}
use eu_nex.Types.{Side, buy, sell, limit, day, Trade}
use eu_nex.Actors.Events.{NewOrderEvent, QuoteLevel, BookUpdateEvent}

pub data Strategy : Type 0 where
  momentum mean_reversion random : Strategy

pub record AiTraderMember : Type 0 where
  pub member_id : ℕ
  pub session_id : ℕ
  pub strategy : Strategy
  pub order_count : ℕ

pub record Bbo : Type 0 where
  pub best_bid : ℤ
  pub best_ask : ℤ

-- `std::mt19937` and `std::uniform_int_distribution`: a draw between two bounds.
pub record Random : Type 1 where
  pub State : Type 0
  pub between : ℤ → ℤ → State → ℤ × State

pub record AiTrader (rnd : Random) : Type 0 where
  pub symbols : List ℕ
  pub members : List AiTraderMember
  pub next_cl_ord_id : ℕ
  pub bbos : List (ℕ × Bbo)
  pub price_history : List (ℕ × List ℤ)
  pub rng : rnd.State

abbrev pub price_scale : ℕ
price_scale = 100000000

abbrev pub max_price_history : ℕ
max_price_history = 50

abbrev pub strategy_of : ℕ → Strategy
strategy_of zero = momentum
strategy_of (suc zero) = mean_reversion
strategy_of _ = random

abbrev pub init_member : ℕ → AiTraderMember
init_member i = record {
  member_id = i + 1;
  session_id = 200 + i;
  strategy = strategy_of (i % 3);
  order_count = 0;
}

unfoldable pub init_members : List AiTraderMember
init_members = map init_member (0 ∷ 1 ∷ 2 ∷ 3 ∷ 4 ∷ 5 ∷ 6 ∷ 7 ∷ 8 ∷ 9 ∷ [])

-- The best price of one side, or 0.
abbrev pub top_price : List QuoteLevel → ℤ
top_price [] = pos 0
top_price (q ∷ qs) = q.price

abbrev pub no_bbo : Bbo
no_bbo = record { best_bid = pos 0; best_ask = pos 0 }

abbrev pub drop_oldest : List ℤ → List ℤ
drop_oldest [] = []
drop_oldest (p ∷ ps) = ps

unfoldable pub remember_price : ℤ → List ℤ → List ℤ
remember_price p history =
    let all = history ++ p ∷ [] in
    if ltb max_price_history (length all) then drop_oldest all else all

-- `referencePrice`, whose doubles are whole numbers.
unfoldable pub reference_price : ℕ → ℤ
reference_price symbol_idx =
    if symbol_idx == 1
    then pos 15400000000
    else if symbol_idx == 2
    then pos 32400000000
    else if symbol_idx == 3
    then pos 14100000000
    else if symbol_idx == 4
    then pos 37500000000
    else if symbol_idx == 5
    then pos 20100000000
    else if symbol_idx == 6
    then pos 32000000000
    else if symbol_idx == 7
    then pos 14600000000
    else pos 10000000000

-- A hundredth of the scale for each tick.
abbrev pub tick_offset : ℤ → ℤ
tick_offset (pos n) = pos (n * 1000000)
tick_offset (negsuc n) = neg (pos (suc n * 1000000))

-- Division that rounds towards 0.
abbrev pub div_ℤ : ℤ → ℕ → ℤ
div_ℤ (pos a) d = pos (a / d)
div_ℤ (negsuc a) d = neg (pos (suc a / d))

abbrev pub at_least_one : ℤ → ℤ
at_least_one p = if leb_ℤ p (pos 0) then pos price_scale else p

-- `Quantity_t qty = ...` of an `int`.
abbrev pub to_u64 : ℤ → ℕ
to_u64 (pos n) = n % u64_mod
to_u64 (negsuc n) = u64_mod - suc n

abbrev pub mid_price : Bbo → ℤ → ℤ
mid_price bbo fallback =
    let mid = div_ℤ (add_i64 bbo.best_bid bbo.best_ask) 2 in
    if eq_ℤ mid (pos 0) then fallback else mid

-- `history.back()` and `history[history.size() - 3]`
abbrev pub last_price : List ℤ → ℤ
last_price [] = pos 0
last_price (p ∷ []) = p
last_price (p ∷ q ∷ ps) = last_price (q ∷ ps)

abbrev pub third_last : List ℤ → ℤ
third_last (p ∷ q ∷ r ∷ []) = p
third_last (p ∷ ps) = third_last ps
third_last [] = pos 0

abbrev pub sum_prices : ℤ → List ℤ → ℤ
sum_prices sum [] = sum
sum_prices sum (p ∷ ps) = sum_prices (add_i64 sum p) ps

abbrev pub nth_symbol : ℕ → List ℕ → Option ℕ
nth_symbol n [] = none
nth_symbol zero (s ∷ ss) = some s
nth_symbol (suc n) (s ∷ ss) = nth_symbol n ss

module _ (rnd : Random) where
  unfoldable pub new_ai_trader : List ℕ → rnd.State → AiTrader rnd
  new_ai_trader symbols seed = record {
    symbols = symbols;
    members = init_members;
    next_cl_ord_id = 50000;
    bbos = [];
    price_history = [];
    rng = seed;
  }

  unfoldable pub on_book_update : BookUpdateEvent → AiTrader rnd → AiTrader rnd
  on_book_update e t =
      let bbo : Bbo = record { best_bid = top_price e.bids; best_ask = top_price e.asks } in
      record t { bbos = insert e.symbol_idx bbo t.bbos }

  unfoldable pub on_trade : Trade → AiTrader rnd → AiTrader rnd
  unfolding remember_price
  on_trade tr t =
      let history = get_or (lookup tr.symbol_idx t.price_history) [] in
      record t {
        price_history = insert tr.symbol_idx (remember_price tr.price history) t.price_history;
      }

  -- An order with the next identifier, for the session of the member.
  unfoldable pub send_order :
      AiTraderMember → ℕ → Side → ℤ → ℤ → rnd.State → AiTrader rnd → AiTrader rnd × NewOrderEvent
  send_order member symbol_idx side price qty rng t = (
    record t { next_cl_ord_id = add64 t.next_cl_ord_id 1; rng = rng },
    record {
      cl_ord_id = t.next_cl_ord_id;
      symbol_idx = symbol_idx;
      side = side;
      ord_type = limit;
      tif = day;
      price = price;
      quantity = to_u64 qty;
      session_id = member.session_id;
      stop_price = pos 0;
    },
  )

  abbrev pub drawn_side : ℤ → Side
  drawn_side d = if eq_ℤ d (pos 0) then sell else buy

  unfoldable pub submit_order : AiTraderMember → ℕ → AiTrader rnd → AiTrader rnd × NewOrderEvent
  submit_order member symbol_idx t =
      let (d, r1) = rnd.between (pos 0) (pos 1) t.rng in
      let (spread, r2) = rnd.between (negsuc 2) (pos 3) r1 in
      let (qty, r3) = rnd.between (pos 10) (pos 100) r2 in
      let price = at_least_one (add_i64 (reference_price symbol_idx) (tick_offset spread)) in
      send_order member symbol_idx (drawn_side d) price qty r3 t

  unfoldable pub strategy_momentum :
      AiTraderMember → ℕ → Bbo → List ℤ → AiTrader rnd → AiTrader rnd × NewOrderEvent
  unfolding submit_order
  strategy_momentum member symbol_idx bbo history t =
      let side = if ltb_ℤ (third_last history) (last_price history) then buy else sell in
      let (spread, r1) = rnd.between (negsuc 1) (pos 2) t.rng in
      let (qty, r2) = rnd.between (pos 10) (pos 50) r1 in
      let price =
        at_least_one (add_i64 (mid_price bbo (last_price history)) (tick_offset spread)) in
      if ltb (length history) 3
      then submit_order member symbol_idx t
      else send_order member symbol_idx side price qty r2 t

  unfoldable pub strategy_mean_reversion :
      AiTraderMember → ℕ → List ℤ → AiTrader rnd → AiTrader rnd × NewOrderEvent
  unfolding submit_order
  strategy_mean_reversion member symbol_idx history t =
      let mean = div_ℤ (sum_prices (pos 0) history) (length history) in
      let side = if ltb_ℤ mean (last_price history) then sell else buy in
      let (qty, r1) = rnd.between (pos 10) (pos 50) t.rng in
      if ltb (length history) 5
      then submit_order member symbol_idx t
      else send_order member symbol_idx side mean qty r1 t

  unfoldable pub strategy_random :
      AiTraderMember → ℕ → Bbo → AiTrader rnd → AiTrader rnd × NewOrderEvent
  unfolding send_order
  strategy_random member symbol_idx bbo t =
      let (d, r1) = rnd.between (pos 0) (pos 1) t.rng in
      let (spread, r2) = rnd.between (negsuc 4) (pos 5) r1 in
      let (qty, r3) = rnd.between (pos 5) (pos 100) r2 in
      let mid = mid_price bbo (reference_price symbol_idx) in
      let price = at_least_one (add_i64 mid (tick_offset spread)) in
      send_order member symbol_idx (drawn_side d) price qty r3 t

  abbrev pub trade_by :
      Strategy → AiTraderMember → ℕ → Bbo → List ℤ → AiTrader rnd → AiTrader rnd × NewOrderEvent
  trade_by momentum member s bbo history t = strategy_momentum member s bbo history t
  trade_by mean_reversion member s bbo history t = strategy_mean_reversion member s history t
  trade_by random member s bbo history t = strategy_random member s bbo t

  -- No quote of the symbol yet: the price is taken from the table.
  unfoldable pub trade_symbol : AiTraderMember → ℕ → AiTrader rnd → AiTrader rnd × NewOrderEvent
  unfolding submit_order strategy_momentum strategy_mean_reversion strategy_random
  trade_symbol member s t =
      let bbo = get_or (lookup s t.bbos) no_bbo in
      let history = get_or (lookup s t.price_history) [] in
      if eq_ℤ bbo.best_bid (pos 0) && eq_ℤ bbo.best_ask (pos 0)
      then submit_order member s t
      else trade_by member.strategy member s bbo history t

  -- One member's turn. A draw beyond the last symbol would be undefined behaviour: `none`.
  unfoldable pub trade_member :
      AiTraderMember → AiTrader rnd → Option (AiTrader rnd × NewOrderEvent)
  unfolding trade_symbol
  trade_member member t = do
    let (d, r1) = rnd.between (pos 0) (pos (length t.symbols - 1)) t.rng
    s ← nth_symbol (to_u64 d) t.symbols
    some (trade_symbol member s (record t { rng = r1 }))

  unfoldable pub trade_members :
      List AiTraderMember → AiTrader rnd → Option (AiTrader rnd × List NewOrderEvent)
  unfolding trade_member
  trade_members [] t = some (t, [])
  trade_members (m ∷ ms) t = do
    (t1, e) ← trade_member m t
    (t2, es) ← trade_members ms t1
    some (t2, e ∷ es)

  unfoldable pub trade_round : AiTrader rnd → Option (AiTrader rnd × List NewOrderEvent)
  trade_round t = if is_empty t.symbols then some (t, []) else trade_members t.members t

  unfoldable pub total_order_count : AiTrader rnd → ℕ
  total_order_count t = sum_by (λ m. m.order_count) t.members
