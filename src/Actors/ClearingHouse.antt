-- ===== src/Actors/ClearingHouse.antt =====
-- src/actors/ClearingHouseActor.hpp and src/actors/ClearingHouseActor.cpp: the capital and the
-- holdings of the members. `double` is a parameter: its type, and its operations as a record. A
-- quantity of a holding has 64 bits with a sign, and a count of trades, an `int`, is its 32-bit
-- pattern.
pub mod Positions
pub mod Tests
use eu_nex.Common.{
  ℕ, zero, suc, ◌+◌, ◌-◌, ◌/◌, ◌%◌, ◌^◌, Bool, true, false, not, ◌&&◌, List, [], ◌∷◌, Option, none,
  some, ltb, ◌==◌, if◌then◌else◌, length, lookup, insert, remove, u64_mod,
}
use eu_nex.Common.Int.{ℤ, pos, negsuc, wrap_i64, add_i64, neg, abs, eq_ℤ}
use eu_nex.Types.{Trade}

-- The operations of `double`; `truncate` is the cast to an integer.
pub record Double (R : Type 0) : Type 0 where
  pub of_int : ℤ → R
  pub truncate : R → ℤ
  pub add : R → R → R
  pub sub : R → R → R
  pub mul : R → R → R
  pub div : R → R → R
  pub gt : R → R → Bool

pub record MemberHolding : Type 0 where
  pub symbol_idx : ℕ
  pub quantity : ℤ
  pub avg_cost : ℤ

-- The name is the list of its characters' codes.
pub record MemberState (R : Type 0) : Type 0 where
  pub member_id : ℕ
  pub name : List ℕ
  pub capital : R
  pub initial_capital : R
  pub trade_count : ℕ
  pub distinct_symbols : ℕ
  pub holdings : List (ℕ × MemberHolding)

pub record LeaderboardEntry (R : Type 0) : Type 0 where
  pub member_id : ℕ
  pub name : List ℕ
  pub capital : R
  pub pnl : R
  pub trade_count : ℕ
  pub holding_count : ℕ

pub record ClearingHouse (R : Type 0) : Type 0 where
  pub session_to_member : List (ℕ × ℕ)
  pub members : List (ℕ × MemberState R)

-- `static_cast<int64_t>`
abbrev pub to_int64 : ℕ → ℤ
to_int64 q = if ltb q (2 ^ 63) then pos q else negsuc (u64_mod - 1 - q)

abbrev pub signed_qty : Bool → ℕ → ℤ
signed_qty is_buy q = if is_buy then to_int64 q else neg (to_int64 q)

-- `MBR%02d`, for numbers of two digits.
abbrev pub member_name : ℕ → List ℕ
member_name i = 77 ∷ 66 ∷ 82 ∷ (48 + i / 10) ∷ (48 + i % 10) ∷ []

-- `distinctSymbols` is assigned for a new holding, and where a sell erases one.
abbrev pub counts_again : Bool → ℕ → Option MemberHolding → Bool
counts_again is_buy qty none = true
counts_again is_buy qty (some h) =
    not is_buy && eq_ℤ (add_i64 h.quantity (signed_qty is_buy qty)) (pos 0)

module _ {R : Type 0} (ops : Double R) where
  abbrev pub price_scale : R
  price_scale = ops.of_int (pos 100000000)

  abbrev pub to_double : ℤ → R
  to_double p = ops.div (ops.of_int p) price_scale

  abbrev pub to_fixed_price : R → ℤ
  to_fixed_price p = ops.truncate (ops.mul p price_scale)

  abbrev pub initial_capital : R
  initial_capital = ops.of_int (pos 100000)

  -- The members numbered from `i`, `n` of them.
  unfoldable pub members_from : ℕ → ℕ → List (ℕ × MemberState R)
  members_from i zero = []
  members_from i (suc n) =
      (
        i,
        record {
          member_id = i;
          name = member_name i;
          capital = initial_capital;
          initial_capital = initial_capital;
          trade_count = 0;
          distinct_symbols = 0;
          holdings = [];
        },
      )
      ∷ members_from (suc i) n

  unfoldable pub new_clearing_house : ClearingHouse R
  unfolding members_from
  new_clearing_house = record { session_to_member = []; members = members_from 1 10 }

  -- A buy changes the average cost unless it closes the position. A sell that closes it erases the
  -- holding.
  abbrev pub change_holding :
      ℕ
      → ℤ
      → ℕ
      → Bool
      → R
      → List (ℕ × MemberHolding)
      → Option MemberHolding
      → List (ℕ × MemberHolding)
  change_holding symbol_idx price qty is_buy cost hs none =
      insert symbol_idx
        (record {
          symbol_idx = symbol_idx;
          quantity = wrap_i64 (signed_qty is_buy qty);
          avg_cost = price;
        })
        hs
  change_holding symbol_idx price qty is_buy cost hs (some h) =
      let quantity = add_i64 h.quantity (signed_qty is_buy qty) in
      let prev_cost = ops.mul (to_double h.avg_cost) (ops.of_int (pos (abs h.quantity))) in
      let avg_cost =
        to_fixed_price (ops.div (ops.add prev_cost cost) (ops.of_int (pos (abs quantity)))) in
      if is_buy
      then insert symbol_idx
          (record h {
            quantity = quantity;
            avg_cost = if eq_ℤ quantity (pos 0) then h.avg_cost else avg_cost;
          })
          hs
      else if eq_ℤ quantity (pos 0)
      then remove symbol_idx hs
      else insert symbol_idx (record h { quantity = quantity }) hs

  -- The trade in the books of a member.
  unfoldable pub book_trade : ℕ → ℤ → ℕ → Bool → MemberState R → MemberState R
  book_trade symbol_idx price qty is_buy m =
      let cost = ops.mul (to_double price) (ops.of_int (pos qty)) in
      let found = lookup symbol_idx m.holdings in
      let hs = change_holding symbol_idx price qty is_buy cost m.holdings found in
      record m {
        trade_count = (m.trade_count + 1) % 2 ^ 32;
        capital = if is_buy then ops.sub m.capital cost else ops.add m.capital cost;
        holdings = hs;
        distinct_symbols = if counts_again is_buy qty found then length hs else m.distinct_symbols;
      }

  abbrev pub update_member :
      ℕ → ℕ → ℤ → ℕ → Bool → ClearingHouse R → Option (MemberState R) → ClearingHouse R
  update_member id symbol_idx price qty is_buy ch none = ch
  update_member id symbol_idx price qty is_buy ch (some m) = record ch {
    members = insert id (book_trade symbol_idx price qty is_buy m) ch.members;
  }

  unfoldable pub process_trade_side : ℕ → ℕ → ℤ → ℕ → Bool → ClearingHouse R → ClearingHouse R
  unfolding book_trade
  process_trade_side id symbol_idx price qty is_buy ch =
      update_member id symbol_idx price qty is_buy ch (lookup id ch.members)

  -- Nothing is booked for a session without a member.
  abbrev pub book_side : Trade → Bool → ClearingHouse R → Option ℕ → ClearingHouse R
  book_side t is_buy ch none = ch
  book_side t is_buy ch (some id) = process_trade_side id t.symbol_idx t.price t.quantity is_buy ch

  unfoldable pub on_trade : Trade → ClearingHouse R → ClearingHouse R
  unfolding process_trade_side
  on_trade t ch =
      let ch1 = book_side t true ch (lookup t.buy_session_id ch.session_to_member) in
      book_side t false ch1 (lookup t.sell_session_id ch1.session_to_member)

  abbrev pub entry_of : MemberState R → LeaderboardEntry R
  entry_of m = record {
    member_id = m.member_id;
    name = m.name;
    capital = m.capital;
    pnl = ops.sub m.capital m.initial_capital;
    trade_count = m.trade_count;
    holding_count = length m.holdings;
  }

  -- `std::sort` by falling capital; the order of equal capitals is one that it may choose.
  unfoldable pub insert_entry :
      LeaderboardEntry R → List (LeaderboardEntry R) → List (LeaderboardEntry R)
  insert_entry e [] = e ∷ []
  insert_entry e (f ∷ fs) = if ops.gt f.capital e.capital then f ∷ insert_entry e fs else e ∷ f ∷ fs

  unfoldable pub sort_entries : List (ℕ × MemberState R) → List (LeaderboardEntry R)
  unfolding insert_entry
  sort_entries [] = []
  sort_entries ((id, m) ∷ ms) = insert_entry (entry_of m) (sort_entries ms)

  unfoldable pub get_leaderboard : ClearingHouse R → List (LeaderboardEntry R)
  unfolding sort_entries
  get_leaderboard ch = sort_entries ch.members

module _ {R : Type 0} where
  unfoldable pub map_session : ℕ → ℕ → ClearingHouse R → ClearingHouse R
  map_session session_id member_id ch = record ch {
    session_to_member = insert session_id member_id ch.session_to_member;
  }

  unfoldable pub get_member : ℕ → ClearingHouse R → Option (MemberState R)
  get_member id ch = lookup id ch.members
