-- ===== src/Actors/AiTrader/Bounds.antt =====
-- The orders that the members of src/actors/AITraderActor.cpp send: their prices, quantities and
-- identifiers.
use eu_nex.Common.{
  sum_by, ◌+◌, ℕ, ◌≤◌, ◌<◌, ◌≡◌, refl, true, ◌&&◌, List, [], arith, All, Bool-cases, inl, inr,
  length, ltb, lookup, get_or, add64,
}
use eu_nex.Common.Int.{pos_part, ℤ, pos, negsuc, leb_ℤ, eq_ℤ}
use eu_nex.Types.{Side}
use eu_nex.Actors.Events.{NewOrderEvent}
use eu_nex.Actors.AiTrader.{
  Strategy, momentum, mean_reversion, random, AiTraderMember, Bbo, no_bbo, Random, AiTrader,
  reference_price, div_ℤ, mid_price, last_price, sum_prices, send_order, submit_order,
  strategy_momentum, strategy_mean_reversion, strategy_random, trade_by, trade_symbol,
}
use eu_nex.Actors.AiTrader.Prices.{
  InBounds, IsModest, IsSane, IsOffer, SmallSpread, at_least_one-add_i64, reference_price-IsModest,
  IsModestBbo, mid_price-IsModest, last_price-IsModest, to_u64-small, sum_prices-eq, sum_by-between,
  mean_between, lookup-All, IsSummable,
}

module _ (rnd : Random) (fair : InBounds rnd) where
  -- An order was sent for the trader's next identifier, and nothing else has changed but the random
  -- engine.
  pub record Sent (t : AiTrader rnd) (r : AiTrader rnd × NewOrderEvent) : Type 0 where
    pub sane : IsSane r.1
    pub cl_ord_id : r.1.cl_ord_id ≡ t.next_cl_ord_id
    pub next : r.0.next_cl_ord_id ≡ add64 t.next_cl_ord_id 1
    pub symbols : r.0.symbols ≡ t.symbols
    pub members : r.0.members ≡ t.members
    pub history : r.0.price_history ≡ t.price_history
    pub bbos : r.0.bbos ≡ t.bbos

  send_order-Sent :
      (m : AiTraderMember) (s : ℕ) (side : Side) (price : ℤ) (lo hi : ℕ) (r r' : rnd.State)
      (t : AiTrader rnd)
      → IsOffer price
      → leb_ℤ (pos lo) (pos hi) ≡ true
      → 5 ≤ lo
      → hi ≤ 100
      → Sent t (send_order rnd m s side price (rnd.between (pos lo) (pos hi) r).0 r' t)
  unfolding send_order
  send_order-Sent m s side price lo hi r r' t h order least most =
      let drawn = fair (pos lo) (pos hi) r order in
      let q = (rnd.between (pos lo) (pos hi) r).0 in
      let small = to_u64-small q lo hi drawn.0 drawn.1 most in
      record {
        sane = (h.0, h.1, omega arith, omega arith);
        cl_ord_id = refl;
        next = refl;
        symbols = refl;
        members = refl;
        history = refl;
        bbos = refl;
      }

  -- A draw of ticks.
  drawn_small :
      (lo hi : ℤ) (r : rnd.State)
      → leb_ℤ lo hi ≡ true
      → leb_ℤ (negsuc 4) lo ≡ true
      → leb_ℤ hi (pos 5) ≡ true
      → SmallSpread (rnd.between lo hi r).0
  drawn_small lo hi r order least most =
      let drawn = fair lo hi r order in (ground arith, ground arith)

  submit_order-Sent :
      (m : AiTraderMember) (s : ℕ) (t : AiTrader rnd) → Sent t (submit_order rnd m s t)
  unfolding submit_order
  submit_order-Sent m s t =
      let (d, r1) = rnd.between (pos 0) (pos 1) t.rng in
      let small = drawn_small (negsuc 2) (pos 3) r1 refl refl refl in
      let offer = at_least_one-add_i64 (reference_price s) _ (reference_price-IsModest s) small in
      send_order-Sent m s _ _ 10 100 _ _ t offer refl (omega arith) (omega arith)

  strategy_random-Sent :
      (m : AiTraderMember) (s : ℕ) (bbo : Bbo) (t : AiTrader rnd)
      → IsModestBbo bbo
      → Sent t (strategy_random rnd m s bbo t)
  unfolding strategy_random
  strategy_random-Sent m s bbo t quoted =
      let (d, r1) = rnd.between (pos 0) (pos 1) t.rng in
      let small = drawn_small (negsuc 4) (pos 5) r1 refl refl refl in
      let mid = mid_price-IsModest bbo (reference_price s) quoted (reference_price-IsModest s) in
      let offer = at_least_one-add_i64 (mid_price bbo (reference_price s)) _ mid small in
      send_order-Sent m s _ _ 5 100 _ _ t offer refl (omega arith) (omega arith)

  strategy_momentum-Sent :
      (m : AiTraderMember) (s : ℕ) (bbo : Bbo) (history : List ℤ) (t : AiTrader rnd)
      → IsModestBbo bbo
      → All IsModest history
      → Sent t (strategy_momentum rnd m s bbo history t)
  unfolding strategy_momentum
  strategy_momentum-Sent m s bbo history t quoted modest =
      elim (Bool-cases (ltb (length history) 3)) [
        | inl few ↦ rw few (submit_order-Sent m s t)
        | inr many ↦
            let small = drawn_small (negsuc 1) (pos 2) t.rng refl refl refl in
            let recent = last_price-IsModest history modest in
            let mid = mid_price-IsModest bbo (last_price history) quoted recent in
            let offer = at_least_one-add_i64 (mid_price bbo (last_price history)) _ mid small in
            rw many (send_order-Sent m s _ _ 10 50 _ _ t offer refl (omega arith) (omega arith))
      ]

  strategy_mean_reversion-Sent :
      (m : AiTraderMember) (s : ℕ) (history : List ℤ) (t : AiTrader rnd)
      → IsSummable history
      → Sent t (strategy_mean_reversion rnd m s history t)
  unfolding strategy_mean_reversion
  strategy_mean_reversion-Sent m s history t ((h, size), modest) =
      elim (Bool-cases (ltb (length history) 5)) [
        | inl few ↦ rw few (submit_order-Sent m s t)
        | inr many ↦
            let total = sum_by pos_part history in
            let (least, most) = sum_by-between history h modest in
            let sum = sum_prices-eq 0 history h (omega arith) in
            let mean : IsOffer (div_ℤ (sum_prices (pos 0) history) (length history)) = rw sum (
              mean_between (0 + total) (length history) (ground arith) (omega arith)
                (omega arith)) in
            rw many (send_order-Sent m s _ _ 10 50 _ _ t mean refl (omega arith) (omega arith))
      ]

  by_strategy :
      (k : Strategy) (m : AiTraderMember) (s : ℕ) (bbo : Bbo) (history : List ℤ) (t : AiTrader rnd)
      → IsModestBbo bbo
      → IsSummable history
      → Sent t (trade_by rnd k m s bbo history t)
  by_strategy momentum m s bbo history t q h = strategy_momentum-Sent m s bbo history t q h.1
  by_strategy mean_reversion m s bbo history t q h = strategy_mean_reversion-Sent m s history t h
  by_strategy random m s bbo history t q h = strategy_random-Sent m s bbo t q

  -- There is a symbol, the histories can be summed, and the quotes are modest.
  abbrev pub IsReady : AiTrader rnd → Type 0
  IsReady t =
      (0 < length t.symbols)
      × All (λ e. IsSummable e.1) t.price_history
      × All (λ e. IsModestBbo e.1) t.bbos

  pub trade_symbol-Sent :
      (m : AiTraderMember) (s : ℕ) (t : AiTrader rnd)
      → All (λ e. IsSummable e.1) t.price_history
      → All (λ e. IsModestBbo e.1) t.bbos
      → Sent t (trade_symbol rnd m s t)
  unfolding trade_symbol
  trade_symbol-Sent m s t h k =
      let bbo = get_or (lookup s t.bbos) no_bbo in
      let history = get_or (lookup s t.price_history) [] in
      let sound = lookup-All IsSummable s t.price_history [] h ((tt, omega arith), tt) in
      let modest = lookup-All IsModestBbo s t.bbos no_bbo k (omega arith, omega arith) in
      elim (Bool-cases (eq_ℤ bbo.best_bid (pos 0) && eq_ℤ bbo.best_ask (pos 0))) [
        | inl none_quoted ↦ rw none_quoted (submit_order-Sent m s t)
        | inr quoted ↦ rw quoted (by_strategy m.strategy m s bbo history t modest sound)
      ]
