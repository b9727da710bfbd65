-- ===== src/Actors/Mdg/Tests.antt =====
-- The theorem about src/actors/MDGActor.cpp at a sample of trades.
use eu_nex.Common.{ℕ, ◌≡◌, ◌<◌, [], ◌∷◌, u64_mod}
use eu_nex.Common.Int.{pos}
use eu_nex.Types.{Trade}
use eu_nex.Actors.Mdg.{snapshot_at}
use eu_nex.Actors.Mdg.Snapshots.{on_trades, empty, count_of, on_trades-summary}

abbrev trade : ℕ → ℕ → Trade
trade id symbol_idx = record {
  trade_id = id;
  symbol_idx = symbol_idx;
  price = pos 105;
  quantity = 3;
  buy_order_id = 1;
  sell_order_id = 2;
  buy_cl_ord_id = 1;
  sell_cl_ord_id = 2;
  match_time = id;
  buy_session_id = 1;
  sell_session_id = 2;
}

on_trades-summary_example :
    let m = on_trades ((10, trade 1 7) ∷ (11, trade 2 8) ∷ (12, trade 3 7) ∷ []) empty in
    (m.recent_trades ≡ trade 1 7 ∷ trade 2 8 ∷ trade 3 7 ∷ [])
    × (2 < u64_mod → (snapshot_at 7 m).trade_count ≡ 2)
unfolding count_of
on_trades-summary_example =
    on_trades-summary ((10, trade 1 7) ∷ (11, trade 2 8) ∷ (12, trade 3 7) ∷ []) 7
