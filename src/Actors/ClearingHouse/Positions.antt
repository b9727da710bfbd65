-- ===== src/Actors/ClearingHouse/Positions.antt =====
-- The positions of the members after a trade (src/actors/ClearingHouseActor.cpp).
use eu_nex.Common.{
  ◌+◌, ◌*◌, ◌^◌, ◌<◌, subst, ℕ, ◌≡◌, refl, sym, ◌∙◌, ap, Bool, true, false, ◌&&◌, List, Option,
  none, some, ◌==◌, ==_iff, if◌then◌else◌, lookup, lookup-insert, lookup-remove, Bool-cases,
  Option-cases, inl, inr, arith,
}
use eu_nex.Common.Int.{
  ℤ, pos, ◌+ℤ◌, wrap_i64, add_i64, add_i64-eq, abs-add, neg, abs, eq_ℤ, eq_ℤ→eq, zero_+ℤ,
}
use eu_nex.Types.{Trade}
use eu_nex.Actors.ClearingHouse.{
  Double, MemberHolding, MemberState, ClearingHouse, signed_qty, to_int64, change_holding,
  book_trade, process_trade_side, on_trade, to_double, to_fixed_price,
}

abbrev pub held : Option MemberHolding → ℤ
held none = pos 0
held (some h) = h.quantity

held-if :
    (c : Bool) (v : MemberHolding) (found : Option MemberHolding)
    → held (if c then some v else found) ≡ (if c then v.quantity else held found)
held-if true v found = refl
held-if false v found = refl

held-none :
    (c : Bool) (found : Option MemberHolding)
    → held (if c then none else found) ≡ (if c then pos 0 else held found)
held-none true found = refl
held-none false found = refl

module _ {R : Type 0} where
  abbrev pub member_position : ℕ → Option (MemberState R) → ℤ
  member_position symbol none = pos 0
  member_position symbol (some m) = held (lookup symbol m.holdings)

  -- What a member holds of a symbol; short positions are negative.
  abbrev pub position : ℕ → ℕ → ClearingHouse R → ℤ
  position id symbol ch = member_position symbol (lookup id ch.members)

-- A quantity that is bought, if `bought`, and sold, if `sold`.
abbrev settled : (ℤ → ℤ → ℤ) → ℤ → ℤ → ℤ → Bool → Bool → ℤ
settled add x gained lost bought sold =
    let y = if bought then add x gained else x in if sold then add y lost else y

to_int64-eq : (q : ℕ) → q < 2 ^ 63 → to_int64 q ≡ pos q
to_int64-eq q h = ground arith

neg-abs : (q : ℕ) → abs (neg (pos q)) ≡ q
neg-abs q = ground arith

settled-eq :
    (x gained lost : ℤ) (bought sold : Bool)
    → add_i64 x gained ≡ x +ℤ gained
    → add_i64 x lost ≡ x +ℤ lost
    → add_i64 (x +ℤ gained) lost ≡ x +ℤ gained +ℤ lost
    → settled add_i64 x gained lost bought sold ≡ settled (λ a b. a +ℤ b) x gained lost bought sold
settled-eq x gained lost true true up down back = ap (λ y. add_i64 y lost) up ∙ back
settled-eq x gained lost true false up down back = up
settled-eq x gained lost false true up down back = down
settled-eq x gained lost false false up down back = refl

untouched :
    (x : ℤ) (q : ℕ) (buyer seller here : Bool)
    → here ≡ false
    → settled add_i64 x (signed_qty true q) (signed_qty false q) (buyer && here) (seller && here)
      ≡ settled (λ a b. a +ℤ b) x (pos q) (neg (pos q)) (buyer && here) (seller && here)
untouched x q true true here e = rw e refl
untouched x q true false here e = rw e refl
untouched x q false true here e = rw e refl
untouched x q false false here e = refl

without_overflow :
    (x : ℤ) (q : ℕ) (bought sold : Bool)
    → abs x + 2 * q < 2 ^ 63
    → settled add_i64 x (signed_qty true q) (signed_qty false q) bought sold
      ≡ settled (λ a b. a +ℤ b) x (pos q) (neg (pos q)) bought sold
without_overflow x q bought sold room =
    let sign = to_int64-eq q (omega arith) in
    let size = neg-abs q in
    let up = add_i64-eq x (pos q) (omega arith) in
    let down = add_i64-eq x (neg (pos q)) (omega arith) in
    let grown = abs-add x (pos q) in
    let back = add_i64-eq (x +ℤ pos q) (neg (pos q)) (omega arith) in
    ap (λ z. settled add_i64 x z (neg z) bought sold) sign
    ∙ settled-eq x (pos q) (neg (pos q)) bought sold up down back

module _ {R : Type 0} (ops : Double R) where
  change_holding-held :
      (s symbol : ℕ) (price : ℤ) (qty : ℕ) (is_buy : Bool) (cost : R)
      (hs : List (ℕ × MemberHolding)) (found : Option MemberHolding)
      → lookup symbol hs ≡ found
      → held (lookup s (change_holding ops symbol price qty is_buy cost hs found))
        ≡ (if symbol == s then add_i64 (held found) (signed_qty is_buy qty) else held (lookup s hs))
  change_holding-held s symbol price qty is_buy cost hs none h =
      let v : MemberHolding = record {
        symbol_idx = symbol;
        quantity = wrap_i64 (signed_qty is_buy qty);
        avg_cost = price;
      } in
      rw (lookup-insert s symbol v hs, zero_+ℤ (signed_qty is_buy qty))
        (held-if (symbol == s) v (lookup s hs))
  change_holding-held s symbol price qty true cost hs (some x) h =
      let quantity = add_i64 x.quantity (signed_qty true qty) in
      let v : MemberHolding = record x {
        quantity = quantity;
        avg_cost =
            if eq_ℤ quantity (pos 0)
            then x.avg_cost
            else to_fixed_price ops (
                ops.div
                  (ops.add (ops.mul (to_double ops x.avg_cost) (ops.of_int (pos (abs x.quantity))))
                    cost)
                  (ops.of_int (pos (abs quantity))));
      } in
      rw (lookup-insert s symbol v hs) (held-if (symbol == s) v (lookup s hs))
  change_holding-held s symbol price qty false cost hs (some x) h =
      let quantity = add_i64 x.quantity (signed_qty false qty) in
      let v : MemberHolding = record x { quantity = quantity } in
      elim (Bool-cases (eq_ℤ quantity (pos 0))) [
        | inl flat ↦
            rw (flat, lookup-remove s symbol hs, eq_ℤ→eq quantity (pos 0) flat)
              (held-none (symbol == s) (lookup s hs))
        | inr stays ↦
            rw (stays, lookup-insert s symbol v hs) (held-if (symbol == s) v (lookup s hs))
      ]

  book_trade-held :
      (s symbol : ℕ) (price : ℤ) (qty : ℕ) (is_buy : Bool) (m : MemberState R)
      → held (lookup s (book_trade ops symbol price qty is_buy m).holdings) ≡ (
          if symbol == s
          then add_i64 (held (lookup s m.holdings)) (signed_qty is_buy qty)
          else held (lookup s m.holdings))
  unfolding book_trade
  book_trade-held s symbol price qty is_buy m =
      let cost = ops.mul (to_double ops price) (ops.of_int (pos qty)) in
      let all =
        change_holding-held s symbol price qty is_buy cost m.holdings (lookup symbol m.holdings)
          refl in
      elim (Bool-cases (symbol == s)) [
        | inl same ↦
            let at_symbol =
              ap (λ x. add_i64 (held (lookup x m.holdings)) (signed_qty is_buy qty))
                ((==_iff symbol s).0 same) in
            rw same ((rw same at all) ∙ at_symbol)
        | inr other ↦ rw other (rw other at all)
      ]

  process_trade_side-position :
      (k s id symbol : ℕ) (price : ℤ) (qty : ℕ) (is_buy : Bool) (ch : ClearingHouse R)
      {m : MemberState R}
      → lookup id ch.members ≡ some m
      → position k s (process_trade_side ops id symbol price qty is_buy ch) ≡ (
          if id == k && symbol == s
          then add_i64 (position k s ch) (signed_qty is_buy qty)
          else position k s ch)
  unfolding process_trade_side
  process_trade_side-position k s id symbol price qty is_buy ch {m} there =
      let after = book_trade ops symbol price qty is_buy m in
      let step = book_trade-held s symbol price qty is_buy m in
      elim (Bool-cases (id == k)) [
        | inl same ↦
            let first : position k s (process_trade_side ops id symbol price qty is_buy ch)
                ≡ held (lookup s after.holdings) =
              rw (there, lookup-insert k id after ch.members, same) refl in
            let e = sym ((==_iff id k).0 same) in
            let old : position k s ch ≡ held (lookup s m.holdings) =
              ap (member_position s) (ap (λ j. lookup j ch.members) e ∙ there) in
            rw (same, old) (first ∙ step)
        | inr other ↦ rw (there, lookup-insert k id after ch.members, other) refl
      ]

  -- A member that is known stays known.
  process_trade_side-known :
      (j id symbol : ℕ) (price : ℤ) (qty : ℕ) (is_buy : Bool) (ch : ClearingHouse R)
      → lookup j (process_trade_side ops id symbol price qty is_buy ch).members ≡ none
      → lookup j ch.members ≡ none
  unfolding process_trade_side
  process_trade_side-known j id symbol price qty is_buy ch gone =
      elim (Option-cases (lookup id ch.members)) [
        | inl unknown ↦ rw unknown at gone
        | inr (m, there) ↦
            let after = book_trade ops symbol price qty is_buy m in
            let gone' = rw (there, lookup-insert j id after ch.members) at gone in ground arith
      ]

  process_trade_side-sessions :
      (id symbol : ℕ) (price : ℤ) (qty : ℕ) (is_buy : Bool) (ch : ClearingHouse R)
      → (process_trade_side ops id symbol price qty is_buy ch).session_to_member
        ≡ ch.session_to_member
  unfolding process_trade_side
  process_trade_side-sessions id symbol price qty is_buy ch =
      elim (Option-cases (lookup id ch.members)) [
        | inl unknown ↦ rw unknown refl
        | inr (m, there) ↦ rw there refl
      ]

  on_trade-wrapped :
      (t : Trade) (ch : ClearingHouse R) (k s : ℕ) {b c : ℕ} {mb mc : MemberState R}
      → lookup t.buy_session_id ch.session_to_member ≡ some b
      → lookup t.sell_session_id ch.session_to_member ≡ some c
      → lookup b ch.members ≡ some mb
      → lookup c ch.members ≡ some mc
      → let bought =
          if b == k && t.symbol_idx == s
          then add_i64 (position k s ch) (signed_qty true t.quantity)
          else position k s ch in
        position k s (on_trade ops t ch) ≡ (
          if c == k && t.symbol_idx == s
          then add_i64 bought (signed_qty false t.quantity)
          else bought)
  unfolding on_trade
  on_trade-wrapped t ch k s {b} {c} {mb} {mc} buyer seller known_b known_c =
      let ch1 = process_trade_side ops b t.symbol_idx t.price t.quantity true ch in
      let first =
        process_trade_side-position k s b t.symbol_idx t.price t.quantity true ch known_b in
      elim (Option-cases (lookup c ch1.members)) [
        | inl gone ↦
            let no = process_trade_side-known c b t.symbol_idx t.price t.quantity true ch gone in
            ground arith
        | inr (m, there) ↦
            let second =
              process_trade_side-position k s c t.symbol_idx t.price t.quantity false ch1 there in
            let sessions = process_trade_side-sessions b t.symbol_idx t.price t.quantity true ch in
            let steps : on_trade ops t ch
                ≡ process_trade_side ops c t.symbol_idx t.price t.quantity false ch1 =
              rw (buyer, sessions, seller) refl in
            ap (position k s) steps
            ∙ second
            ∙ ap
                (λ x.
                  if c == k && t.symbol_idx == s
                  then add_i64 x (signed_qty false t.quantity)
                  else x)
                first
      ]

  -- Two members trade in a symbol a quantity below 2^63, and no position in that symbol, whoever
  -- holds it, comes to 2^63 in size when twice that quantity is added to it: the trade adds its
  -- quantity to the buyer's position in the symbol and takes it from the seller's; every other
  -- position stays, and a member that trades with itself ends where it was. A holding that is not
  -- there counts as 0.
  pub on_trade-position :
      (t : Trade) (ch : ClearingHouse R) (k s : ℕ) {b c : ℕ} {mb mc : MemberState R}
      → lookup t.buy_session_id ch.session_to_member ≡ some b
      → lookup t.sell_session_id ch.session_to_member ≡ some c
      → lookup b ch.members ≡ some mb
      → lookup c ch.members ≡ some mc
      → ((m : ℕ) → abs (position m t.symbol_idx ch) + 2 * t.quantity < 2 ^ 63)
      → let bought =
          if b == k && t.symbol_idx == s
          then position k s ch +ℤ pos t.quantity
          else position k s ch in
        position k s (on_trade ops t ch)
        ≡ (if c == k && t.symbol_idx == s then bought +ℤ neg (pos t.quantity) else bought)
  on_trade-position t ch k s {b} {c} buyer seller known_b known_c room =
      let wrapped = on_trade-wrapped t ch k s buyer seller known_b known_c in
      elim (Bool-cases (t.symbol_idx == s)) [
        | inl same ↦
            let here = ap (λ x. position k x ch) ((==_iff t.symbol_idx s).0 same) in
            let fits = subst (λ x. abs x + 2 * t.quantity < 2 ^ 63) here (room k) in
            wrapped
            ∙ without_overflow (position k s ch) t.quantity (b == k && t.symbol_idx == s)
                (c == k && t.symbol_idx == s) fits
        | inr other ↦
            wrapped
            ∙ untouched (position k s ch) t.quantity (b == k) (c == k) (t.symbol_idx == s) other
      ]
