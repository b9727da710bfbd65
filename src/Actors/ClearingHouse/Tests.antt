-- ===== src/Actors/ClearingHouse/Tests.antt =====
-- The theorem about src/actors/ClearingHouseActor.cpp at two members, with integers of the whole
-- part only in the place of `double`.
use eu_nex.Common.{◌+◌, ◌<◌, ◌^◌, arith, ℕ, ◌≡◌, refl, ◌∷◌, []}
use eu_nex.Common.Int.{abs, ℤ, pos, negsuc, ◌+ℤ◌, neg, ltb_ℤ}
use eu_nex.Types.{Trade}
use eu_nex.Actors.ClearingHouse.{Double, MemberState, ClearingHouse, member_name, on_trade}
use eu_nex.Actors.ClearingHouse.Positions.{position, on_trade-position}

-- Products and quotients are not looked at here, and keep their first argument.
abbrev whole : Double ℤ
whole = record {
  of_int = λ a. a;
  truncate = λ a. a;
  add = λ a b. a +ℤ b;
  sub = λ a b. a +ℤ neg b;
  mul = λ a b. a;
  div = λ a b. a;
  gt = λ a b. ltb_ℤ b a;
}

abbrev member : ℕ → MemberState ℤ
member id = record {
  member_id = id;
  name = member_name id;
  capital = pos 100000;
  initial_capital = pos 100000;
  trade_count = 0;
  distinct_symbols = 1;
  holdings = (7, record { symbol_idx = 7; quantity = pos 5; avg_cost = pos 100 }) ∷ [];
}

abbrev house : ClearingHouse ℤ
house = record {
  session_to_member = (100, 1) ∷ (101, 2) ∷ [];
  members = (1, member 1) ∷ (2, member 2) ∷ [];
}

abbrev trade : Trade
trade = record {
  trade_id = 1;
  symbol_idx = 7;
  price = pos 105;
  quantity = 8;
  buy_order_id = 1;
  sell_order_id = 2;
  buy_cl_ord_id = 1;
  sell_cl_ord_id = 2;
  match_time = 3;
  buy_session_id = 100;
  sell_session_id = 101;
}

house-small : (m : ℕ) → abs (position m 7 house) + 16 < 2 ^ 63
house-small m = ground arith

-- The seller of 8 held 5, and is short of 3 after the trade.
on_trade-position_example : position 2 7 (on_trade whole trade house) ≡ negsuc 2
on_trade-position_example = on_trade-position whole trade house 2 7 refl refl refl refl house-small
