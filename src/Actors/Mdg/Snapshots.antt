-- ===== src/Actors/Mdg/Snapshots.antt =====
-- What a run of trades leaves in src/actors/MDGActor.cpp.
use eu_nex.Common.{
  ℕ, zero, suc, ◌+◌, ◌-◌, ◌≤◌, ◌<◌, ◌≡◌, refl, ap, ◌∙◌, Bool-cases, inl, inr, leb, List, [], ◌∷◌,
  ◌++◌, append_assoc, append-nil, arith, ◌==◌, if◌then◌else◌, length, length-append, drop,
  drop-append, length-drop, lookup-insert, add64, add64-eq, u64_mod,
}
use eu_nex.Types.{Trade}
use eu_nex.Actors.Mdg.{
  Mdg, MarketDataSnapshot, max_recent_trades, drop_first, snapshot_at, remember, on_trade,
}

-- The trades of a run, each with the reading of the clock.
unfoldable pub on_trades : List (ℕ × Trade) → Mdg → Mdg
on_trades [] m = m
on_trades ((now, t) ∷ ts) m = on_trades ts (on_trade now t m)

abbrev pub trades : List (ℕ × Trade) → List Trade
trades [] = []
trades ((now, t) ∷ ts) = t ∷ trades ts

-- The last `max_recent_trades` entries.
abbrev pub last_trades : List Trade → List Trade
last_trades ts = drop (length ts - max_recent_trades) ts

drop_first-drop : (n : ℕ) (ts : List Trade) → drop_first (drop n ts) ≡ drop (suc n) ts
drop_first-drop zero [] = refl
drop_first-drop zero (t ∷ ts) = refl
drop_first-drop (suc n) [] = refl
drop_first-drop (suc n) (t ∷ ts) = drop_first-drop n ts

-- With 200 entries kept, the count to drop grows by one.
all_but :
    (t : Trade) (done : List Trade)
    → max_recent_trades ≤ length done
    → length (done ++ t ∷ []) - max_recent_trades ≡ suc (length done - max_recent_trades)
all_but t done h = omega (arith, length-append done (t ∷ []))

remember-last_trades :
    (t : Trade) (done : List Trade) → remember t (last_trades done) ≡ last_trades (done ++ t ∷ [])
unfolding remember
remember-last_trades t done = elim (Bool-cases (leb max_recent_trades (length done))) [
  | inl full ↦ ground (
    arith,
    length-append done (t ∷ []),
    length-drop (length done - max_recent_trades) done,
    length-append (last_trades done) (t ∷ []),
    drop-append (length done - max_recent_trades) done (t ∷ []),
    drop_first-drop (length done - max_recent_trades) (done ++ t ∷ []),
    all_but t done,
  )
  | inr space ↦ ground (arith, length-append done (t ∷ []))
]

on_trades-last_trades :
    (ts : List (ℕ × Trade)) (done : List Trade) (m : Mdg)
    → m.recent_trades ≡ last_trades done
    → (on_trades ts m).recent_trades ≡ last_trades (done ++ trades ts)
unfolding on_trades on_trade
on_trades-last_trades [] done m h = ground (arith, append-nil done)
on_trades-last_trades ((now, t) ∷ ts) done m h =
    let step = ap (remember t) h ∙ remember-last_trades t done in
    on_trades-last_trades ts (done ++ t ∷ []) (on_trade now t m) step
    ∙ ap last_trades (append_assoc done (t ∷ []) (trades ts))

-- The number of trades for a symbol.
unfoldable pub count_of : ℕ → List (ℕ × Trade) → ℕ
count_of s [] = 0
count_of s ((now, t) ∷ ts) = if t.symbol_idx == s then suc (count_of s ts) else count_of s ts

abbrev pub empty : Mdg
empty = record { snapshots = []; recent_trades = [] }

on_trade-count :
    (s now : ℕ) (t : Trade) (m : Mdg)
    → (snapshot_at s (on_trade now t m)).trade_count ≡ (
        if t.symbol_idx == s
        then add64 (snapshot_at s m).trade_count 1
        else (snapshot_at s m).trade_count)
unfolding on_trade
on_trade-count s now t m =
    let snap : MarketDataSnapshot = record (snapshot_at t.symbol_idx m) {
      symbol_idx = t.symbol_idx;
      last_trade_price = t.price;
      last_trade_qty = t.quantity;
      trade_count = add64 (snapshot_at t.symbol_idx m).trade_count 1;
      update_time = now;
    } in
    grind (arith, lookup-insert s t.symbol_idx snap m.snapshots)

on_trades-count :
    (s : ℕ) (ts : List (ℕ × Trade)) (m : Mdg)
    → (snapshot_at s m).trade_count + count_of s ts < u64_mod
    → (snapshot_at s (on_trades ts m)).trade_count ≡ (snapshot_at s m).trade_count + count_of s ts
unfolding on_trades count_of
on_trades-count s [] m h = omega arith
on_trades-count s ((now, t) ∷ ts) m h = ground (
  arith,
  on_trade-count s now t m,
  add64-eq (snapshot_at s m).trade_count 1,
  on_trades-count s ts (on_trade now t m),
)

-- After any run of trades the actor holds the last 200 of them, in order; and the snapshot of each
-- symbol counts the trades for it, if these are fewer than 2^64.
pub on_trades-summary :
    (ts : List (ℕ × Trade)) (s : ℕ)
    → let m = on_trades ts empty in
      (m.recent_trades ≡ last_trades (trades ts))
      × (count_of s ts < u64_mod → (snapshot_at s m).trade_count ≡ count_of s ts)
on_trades-summary ts s =
    (on_trades-last_trades ts [] empty refl, λ h. ground (arith, on_trades-count s ts empty))
