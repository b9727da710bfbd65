-- ===== src/Actors/AiTrader/Rounds.antt =====
-- A round of trading (`tradeRound` of src/actors/AITraderActor.cpp): each member sends one order.
use eu_nex.Common.{
  ℕ, zero, suc, ◌+◌, ◌-◌, ◌≤◌, ◌<◌, ◌≡◌, refl, sym, ap, ◌∙◌, subst, true, false, List, [], ◌∷◌,
  ◌++◌, Option, some, arith, All, All-append, Bool-cases, inl, inr, is_empty, length, length-append,
  ltb, ◌==◌, lookup, insert, get_or, add64-eq, u64_mod,
}
use eu_nex.Common.Int.{ℤ, pos, leb_ℤ}
use eu_nex.Types.{Trade}
use eu_nex.Actors.Events.{NewOrderEvent}
use eu_nex.Actors.AiTrader.{
  AiTraderMember, Random, AiTrader, remember_price, on_trade, to_u64, nth_symbol, drop_oldest,
  max_price_history, trade_symbol, trade_member, trade_members, trade_round,
}
use eu_nex.Actors.AiTrader.Prices.{
  InBounds, Positive, IsSane, IsHistory, lookup-IsHistory, IsSummable, IsModestBbo,
}
use eu_nex.Actors.AiTrader.Bounds.{Sent, IsReady, trade_symbol-Sent}

-- The identifiers of the orders follow one another.
abbrev pub Consecutive : ℕ → List NewOrderEvent → Type 0
Consecutive n [] = Unit
Consecutive n (e ∷ es) = (e.cl_ord_id ≡ n) × Consecutive (n + 1) es

nth_symbol-some : (n : ℕ) (ss : List ℕ) → n < length ss → (s : ℕ) × (nth_symbol n ss ≡ some s)
nth_symbol-some n [] h = ground arith
nth_symbol-some zero (s ∷ ss) h = (s, refl)
nth_symbol-some (suc n) (s ∷ ss) h = nth_symbol-some n ss (omega arith)

to_u64-below :
    (d : ℤ) (n : ℕ)
    → 0 < n
    → n < u64_mod
    → leb_ℤ (pos 0) d ≡ true
    → leb_ℤ d (pos (n - 1)) ≡ true
    → to_u64 d < n
to_u64-below d n h k lo hi = ground arith

module _ (rnd : Random) (fair : InBounds rnd) where
  -- What a round changes: the random engine and the next identifier.
  abbrev pub Unchanged : AiTrader rnd → AiTrader rnd → Type 0
  Unchanged t t' =
      (t'.symbols ≡ t.symbols)
      × (t'.members ≡ t.members)
      × (t'.price_history ≡ t.price_history)
      × (t'.bbos ≡ t.bbos)

  trade_member-some :
      (m : AiTraderMember) (t : AiTrader rnd)
      → length t.symbols < u64_mod
      → IsReady rnd fair t
      → (r : AiTrader rnd × NewOrderEvent) × ((trade_member rnd m t ≡ some r) × Sent rnd fair t r)
  unfolding trade_member
  trade_member-some m t small (ne, h, k) =
      let (d, r1) = rnd.between (pos 0) (pos (length t.symbols - 1)) t.rng in
      let drawn = fair (pos 0) (pos (length t.symbols - 1)) t.rng (ground arith) in
      let inside = to_u64-below d (length t.symbols) ne small drawn.0 drawn.1 in
      let (s, e) = nth_symbol-some (to_u64 d) t.symbols inside in
      let t1 = record t { rng = r1 } in
      let sent = trade_symbol-Sent rnd fair m s t1 h k in
      (
        trade_symbol rnd m s t1,
        (
          rw e refl,
          record {
            sane = sent.sane;
            cl_ord_id = sent.cl_ord_id;
            next = sent.next;
            symbols = sent.symbols;
            members = sent.members;
            history = sent.history;
            bbos = sent.bbos;
          },
        ),
      )

  abbrev pub Round :
      List AiTraderMember → AiTrader rnd → Option (AiTrader rnd × List NewOrderEvent) → Type 0
  Round ms t r =
      (t' : AiTrader rnd) × ((es : List NewOrderEvent) × ((r ≡ some (t', es))
          × (length es ≡ length ms)
          × All IsSane es
          × Consecutive t.next_cl_ord_id es
          × Unchanged t t'))

  trade_members-Round :
      (ms : List AiTraderMember) (t : AiTrader rnd)
      → length t.symbols < u64_mod
      → t.next_cl_ord_id + length ms < u64_mod
      → IsReady rnd fair t
      → Round ms t (trade_members rnd ms t)
  unfolding trade_members
  trade_members-Round [] t small room ready =
      (t, ([], (refl, refl, tt, tt, (refl, refl, refl, refl))))
  trade_members-Round (m ∷ ms) t small room ready =
      let ((t1, e), (here, sent)) = trade_member-some m t small ready in
      let up : t1.next_cl_ord_id ≡ t.next_cl_ord_id + 1 =
        sent.next ∙ add64-eq t.next_cl_ord_id 1 (omega arith) in
      let ready1 : IsReady rnd fair t1 = (
        rw sent.symbols ready.0,
        subst (λ h. All (λ e. IsSummable e.1) h) (sym sent.history) ready.1,
        subst (λ h. All (λ e. IsModestBbo e.1) h) (sym sent.bbos) ready.2,
      ) in
      let (t2, (es, (there, size, sane, following, same))) =
        trade_members-Round ms t1 (rw sent.symbols small) (omega arith) ready1 in
      (
        t2,
        (
          e ∷ es,
          (
            rw (here, there) refl,
            ap suc size,
            (sent.sane, sane),
            (sent.cl_ord_id, subst (λ n. Consecutive n es) up following),
            (
              same.0 ∙ sent.symbols,
              same.1 ∙ sent.members,
              same.2 ∙ sent.history,
              same.3 ∙ sent.bbos,
            ),
          ),
        ),
      )

  -- When the random engine draws between the bounds that it is given, the symbols are fewer than
  -- 2^64 and not none, the histories hold at most 50 prices each and all above 0 and at most 2^57,
  -- no quote is larger than 2^57 in size, and the identifiers do not run out: a round never reads
  -- beyond the symbols, and sends one order for each member, at a price above 0 and at most 2^58,
  -- for 5 to 100 shares, under identifiers that follow one another. The members stay as they are,
  -- with the counts of their orders.
  pub trade_round-Round :
      (t : AiTrader rnd)
      → length t.symbols < u64_mod
      → t.next_cl_ord_id + length t.members < u64_mod
      → IsReady rnd fair t
      → Round t.members t (trade_round rnd t)
  unfolding trade_round
  trade_round-Round t small room ready =
      let some_symbol : is_empty t.symbols ≡ false = ground arith in
      rw some_symbol (trade_members-Round t.members t small room ready)

drop_oldest-IsHistory :
    (ps : List ℤ) → All Positive ps → length ps ≤ 51 → IsHistory (drop_oldest ps)
drop_oldest-IsHistory [] h le = (tt, omega arith)
drop_oldest-IsHistory (p ∷ ps) h le = (h.1, omega arith)

remember_price-IsHistory :
    (p : ℤ) (ps : List ℤ) → Positive p → IsHistory ps → IsHistory (remember_price p ps)
unfolding remember_price
remember_price-IsHistory p ps h k =
    let all = ps ++ p ∷ [] in
    let good = All-append Positive ps (p ∷ []) k.0 (h, tt) in
    let size = length-append ps (p ∷ []) in
    elim (Bool-cases (ltb max_price_history (length all))) [
      | inl full ↦ rw full (drop_oldest-IsHistory all good (omega arith))
      | inr free ↦ rw free (good, ground arith)
    ]

insert-IsHistory :
    (s : ℕ) (ps : List ℤ) (m : List (ℕ × List ℤ))
    → IsHistory ps
    → All (λ e. IsHistory e.1) m
    → All (λ e. IsHistory e.1) (insert s ps m)
insert-IsHistory s ps [] h k = (h, tt)
insert-IsHistory s ps (e ∷ m) h k = elim (Bool-cases (e.0 == s)) [
  | inl same ↦ rw same (h, k.1)
  | inr differ ↦ rw differ (k.0, insert-IsHistory s ps m h k.1)
]

-- A trade at a price above 0 keeps the histories to at most 50 prices each, all above 0.
pub on_trade-IsHistory :
    (rnd : Random) (tr : Trade) (t : AiTrader rnd)
    → Positive tr.price
    → All (λ e. IsHistory e.1) t.price_history
    → All (λ e. IsHistory e.1) (on_trade rnd tr t).price_history
unfolding on_trade
on_trade-IsHistory rnd tr t h k =
    let ps = get_or (lookup tr.symbol_idx t.price_history) [] in
    insert-IsHistory tr.symbol_idx (remember_price tr.price ps) t.price_history
      (remember_price-IsHistory tr.price ps h (lookup-IsHistory tr.symbol_idx t.price_history k)) k
