-- ===== src/Book/Queue/Deals.antt =====
-- The loops of `matchBuy`, `matchSell` and `uncross` (src/common/Book.cpp) serve the queue that the
-- levels stand for.
use eu_nex.Common.{
  ℕ, ◌≡◌, refl, sym, ap, ◌∙◌, Bool, true, false, List, [], ◌∷◌, ◌++◌, arith, subst, All,
  append_assoc, Bool-cases, inl, inr, ◌==◌, is_empty,
}
use eu_nex.Common.Int.{ℤ}
use eu_nex.Types.{Order}
use eu_nex.Book.Levels.{Levels}
use eu_nex.Book.Levels.Sides.{NoneEmpty}
use eu_nex.Book.State.{Output}
use eu_nex.Book.Sweep.{
  Fill, reduce, after_trade, resting_after, keep_order, sweep_orders, sweep_levels,
}
use eu_nex.Book.Queue.{Deal, deal}
use eu_nex.Book.Queue.Flat.{flat, Priced, flat-keep_level}

abbrev pub view_fill : Fill → Deal
view_fill f = record {
  incoming = f.incoming;
  next_trade_id = f.next_trade_id;
  last_trade_price = f.last_trade_price;
}

pub keep_order-append :
    (o : Order) (os rs : List Order) → keep_order o (os ++ rs) ≡ keep_order o os ++ rs
keep_order-append o os rs = elim (Bool-cases (o.remaining_qty == 0)) [
  | inl e ↦ rw e refl
  | inr e ↦ rw e refl
]

module _ (emit : ℤ → Fill → Order → List Output) (emit' : ℤ → Order → ℕ → Order → List Output)
    (same : (p : ℤ) (f : Fill) (r : Order) → emit p f r ≡ emit' p f.incoming f.next_trade_id r)
    (price_at : ℤ → ℤ) (stop : Order → ℤ → Bool)
    (still : (o : Order) (q : ℕ) (p : ℤ) → stop (reduce q o) p ≡ stop o p) where
  abbrev pub Result : Type 0
  Result = Deal × List Order × List Output

  abbrev pub serve : Deal → List Order → Result
  serve = deal emit' price_at stop

  deal-nil : (d : Deal) → serve d [] ≡ (d, [], [])
  unfolding deal
  deal-nil d = refl

  deal-filled :
      (d : Deal) (rs : List Order)
      → (d.incoming.remaining_qty == 0) ≡ true
      → serve d rs ≡ (d, rs, [])
  unfolding deal
  deal-filled d [] e = refl
  deal-filled d (r ∷ rs) e = rw e refl

  -- The rest of the queue is served after what the loop has done.
  abbrev then_serve : Fill × List Order × List Output → List Order → Result
  then_serve t rs = let next = serve (view_fill t.0) rs in (next.0, t.1 ++ next.1, t.2 ++ next.2)

  abbrev prepend {ℓ} :
      {A : Type ℓ}
      → Order
      → List Output
      → A × List Order × List Output
      → A × List Order × List Output
  prepend x out t = (t.0, keep_order x t.1, out ++ t.2)

  then_serve-prepend :
      (x : Order) (out : List Output) (t : Fill × List Order × List Output) (rs : List Order)
      → prepend x out (then_serve t rs) ≡ then_serve (prepend x out t) rs
  then_serve-prepend x out t rs =
      let next = serve (view_fill t.0) rs in
      rw (keep_order-append x t.1 next.1, append_assoc out t.2 next.2) refl

  abbrev Served : Fill → Order → List Order → ℤ → Type 0
  Served f r rs p =
      serve (view_fill f) (r ∷ rs)
      ≡ prepend (resting_after f r) (emit (price_at p) f r)
          (serve (view_fill (after_trade (price_at p) f r)) rs)

  -- One round of the loop serves the head of the queue.
  deal-round :
      (f : Fill) (r : Order) (rs : List Order)
      → (f.incoming.remaining_qty == 0) ≡ false
      → stop f.incoming r.price ≡ false
      → Served f r rs r.price
  unfolding deal after_trade resting_after
  deal-round f r rs live within = rw (live, within, same (price_at r.price) f r) refl

  deal-step :
      (p : ℤ) (f : Fill) (r : Order) (rs : List Order)
      → (f.incoming.remaining_qty == 0) ≡ false
      → stop f.incoming p ≡ false
      → r.price ≡ p
      → Served f r rs p
  deal-step p f r rs live within e =
      subst (λ q. stop f.incoming q ≡ false → Served f r rs q) e (deal-round f r rs live) within

  sweep_orders-deal :
      (p : ℤ) (f : Fill) (os rs : List Order)
      → All (λ o. o.price ≡ p) os
      → stop f.incoming p ≡ false
      → serve (view_fill f) (os ++ rs) ≡ then_serve (sweep_orders emit (price_at p) f os) rs
  unfolding sweep_orders after_trade
  sweep_orders-deal p f [] rs priced within = refl
  sweep_orders-deal p f (r ∷ os) rs priced within =
      let f1 = after_trade (price_at p) f r in
      let x = resting_after f r in
      let out = emit (price_at p) f r in
      let inner = sweep_orders emit (price_at p) f1 os in
      let rest = sweep_orders-deal p f1 os rs priced.1 (still f.incoming _ p ∙ within) in
      elim (Bool-cases (f.incoming.remaining_qty == 0)) [
        | inl e ↦ rw e (
            deal-filled (view_fill f) (r ∷ os ++ rs) e
            ∙ sym (ap (λ (t : Result). (t.0, r ∷ os ++ t.1, t.2)) (deal-filled (view_fill f) rs e)))
        | inr e ↦ rw e (
            deal-step p f r (os ++ rs) e within priced.0
            ∙ ap (prepend x out) rest
            ∙ then_serve-prepend x out inner rs)
      ]

  abbrev pub levels_deal : Fill → Levels → Result
  levels_deal f ls = let t = sweep_levels emit price_at stop f ls in (view_fill t.0, flat t.1, t.2)

  deal-stopped :
      (d : Deal) (p : ℤ) (os rs : List Order)
      → is_empty os ≡ false
      → All (λ o. o.price ≡ p) os
      → stop d.incoming p ≡ true
      → serve d (os ++ rs) ≡ (d, os ++ rs, [])
  unfolding deal
  deal-stopped d p [] rs ne priced beyond = ground arith
  deal-stopped d p (r ∷ os) rs ne priced beyond =
      let here : stop d.incoming r.price ≡ true =
        subst (λ q. stop d.incoming q ≡ true) (sym priced.0) beyond in
      elim (Bool-cases (d.incoming.remaining_qty == 0)) [
        | inl e ↦ rw e refl
        | inr e ↦ rw (e, here) refl
      ]

  -- The loops over the levels do to the queue what serving it does.
  pub sweep_levels-deal :
      (f : Fill) (ls : Levels)
      → NoneEmpty ls
      → Priced ls
      → serve (view_fill f) (flat ls) ≡ levels_deal f ls
  unfolding sweep_levels flat
  sweep_levels-deal f [] ne priced = deal-nil (view_fill f)
  sweep_levels-deal f (l ∷ ls) ne priced =
      let inner = sweep_orders emit (price_at l.price) f l.orders in
      let next = sweep_levels emit price_at stop inner.0 ls in
      let rest = sweep_levels-deal inner.0 ls ne.1 priced.1 in
      elim (Bool-cases (f.incoming.remaining_qty == 0)) [
        | inl e ↦ rw e (deal-filled (view_fill f) (l.orders ++ flat ls) e)
        | inr e ↦ elim (Bool-cases (stop f.incoming l.price)) [
          | inl beyond ↦
              rw (e, beyond)
                (deal-stopped (view_fill f) l.price l.orders (flat ls) ne.0 priced.0 beyond)
          | inr within ↦
              rw (e, within)
                (sweep_orders-deal l.price f l.orders (flat ls) priced.0 within
                  ∙ ap (λ (t : Result). (t.0, inner.1 ++ t.1, inner.2 ++ t.2)) rest
                  ∙ ap (λ os. (view_fill next.0, os, inner.2 ++ next.2))
                      (sym (flat-keep_level l inner.1 next.1)))
        ]
      ]
