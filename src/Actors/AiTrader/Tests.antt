-- ===== src/Actors/AiTrader/Tests.antt =====
-- The theorems about src/actors/AITraderActor.cpp with a random engine that draws the lower bound.
use eu_nex.Common.{ℕ, ◌+◌, ◌≡◌, refl, true, [], ◌∷◌, arith, All}
use eu_nex.Common.Int.{ℤ, pos, leb_ℤ}
use eu_nex.Types.{Trade}
use eu_nex.Actors.AiTrader.{Random, AiTrader, new_ai_trader, init_members, on_trade, trade_round}
use eu_nex.Actors.AiTrader.Prices.{InBounds, IsHistory}
use eu_nex.Actors.AiTrader.Rounds.{Round, trade_round-Round, on_trade-IsHistory}

-- The state counts the draws.
abbrev lowest : Random
lowest = record { State = ℕ; between = λ lo hi s. (lo, s + 1) }

leb_ℤ-refl : (a : ℤ) → leb_ℤ a a ≡ true
leb_ℤ-refl a = ground arith

lowest-InBounds : InBounds lowest
lowest-InBounds lo hi s h = (leb_ℤ-refl lo, h)

-- One symbol without quotes, and one with a history of five prices.
abbrev trader : AiTrader lowest
trader = record (new_ai_trader lowest (1 ∷ 2 ∷ []) 0) {
  bbos = (1, record { best_bid = pos 100; best_ask = pos 104 }) ∷ [];
  price_history = (1, pos 101 ∷ pos 102 ∷ pos 103 ∷ pos 104 ∷ pos 105 ∷ []) ∷ [];
}

abbrev trade : Trade
trade = record {
  trade_id = 1;
  symbol_idx = 1;
  price = pos 106;
  quantity = 3;
  buy_order_id = 1;
  sell_order_id = 2;
  buy_cl_ord_id = 1;
  sell_cl_ord_id = 2;
  match_time = 1;
  buy_session_id = 1;
  sell_session_id = 2;
}

trade_round-Round_example :
    Round lowest lowest-InBounds trader.members trader (trade_round lowest trader)
unfolding new_ai_trader init_members
trade_round-Round_example =
    trade_round-Round lowest lowest-InBounds trader (omega arith) (omega arith)
      (omega arith, ground arith, ((omega arith, omega arith), tt))

on_trade-IsHistory_example : All (λ e. IsHistory e.1) (on_trade lowest trade trader).price_history
on_trade-IsHistory_example = on_trade-IsHistory lowest trade trader refl (ground arith)
