-- ===== src/Book/Auction/Bids.antt =====
-- One ask in the opening auction (`uncross` of src/common/Book.cpp): what stays true of the bids and
-- of `orderIndex_` when it is crossed, and erased from the table if it is filled.
use eu_nex.Common.{
  ℕ, ◌≤◌, ◌≡◌, refl, ap, ◌≢◌, ◌∙◌, subst, [], ◌∷◌, none, some, arith, All-mono, ◌==◌, if◌then◌else◌,
  Bool-cases, inl, inr,
}
use eu_nex.Common.Int.{ℤ, ltb_ℤ}
use eu_nex.Types.{buy, sell, Order}
use eu_nex.Book.Levels.{Levels, Index, index_find, index_erase}
use eu_nex.Book.Levels.Sides.{SideIsValid}
use eu_nex.Book.Levels.Index.{
  Mapped, Indexed, AllRising, KeysBelow, AllWithout-other, index_find-erase_ne,
  index_find-erase_none, index_erase-KeysBelow,
}
use eu_nex.Book.State.{Clock, Book}
use eu_nex.Book.Sweep.{start_fill}
use eu_nex.Book.Sweep.Quantities.{sweep_levels-incoming, sweep_levels-incoming_qty}
use eu_nex.Book.Sweep.Sides.{sweep_levels-SideIsValid}
use eu_nex.Book.Sweep.Entries.{
  sweep_levels-index_find, sweep_levels-none, sweep_levels-KeysBelow, sweep_levels-AllRising,
  sweep_levels-Indexed,
}
use eu_nex.Book.Auction.{auction_outputs, cross_bids}

-- The bids are in order, the table knows them, and its identifiers are below `n`.
pub record BidsFine (n : ℕ) (b : Book) : Type 0 where
  pub valid : SideIsValid buy b.bids
  pub indexed : Indexed buy b.order_index b.bids
  pub rising : AllRising b.bids
  pub keys : KeysBelow n b.order_index

Indexed-erase :
    (id : ℕ) (p : ℤ) (m : Index) (ls : Levels)
    → index_find id m ≡ some (sell, p)
    → Indexed buy m ls
    → Indexed buy (index_erase id m) ls
Indexed-erase id p m [] there i = tt
Indexed-erase id p m (l ∷ ls) there i = (
  All-mono (Mapped buy m l.price) (Mapped buy (index_erase id m) l.price)
      (λ o mapped.
        index_find-erase_ne o.order_id id m
          (λ e. let moved = subst (λ k. index_find k m ≡ some (sell, p)) e there in cc)
        ∙ mapped)
      l.orders i.0,
  Indexed-erase id p m ls there i.1,
)

module _ (clk : Clock) (iop : ℤ) where
  pub cross_bids-incoming :
      (b : Book) (ask : Order)
      → let ask1 = (cross_bids clk iop b ask).1 in
        (ask1 ≡ record ask { remaining_qty = ask1.remaining_qty })
        × (ask1.remaining_qty ≤ ask.remaining_qty)
  unfolding cross_bids
  cross_bids-incoming b ask =
      let emit = auction_outputs clk b.symbol_idx in
      let stop = λ (o : Order) (p : ℤ). ltb_ℤ p iop in
      let left =
        sweep_levels-incoming_qty emit stop (λ q o. refl) (λ p. iop) (start_fill b ask) b.bids in
      (
        sweep_levels-incoming emit stop (λ q o. refl) (λ p. iop) (start_fill b ask) b.bids,
        omega arith,
      )

  cross_bids-BidsFine :
      {n : ℕ} (b : Book) (ask : Order) → BidsFine n b → BidsFine n (cross_bids clk iop b ask).0
  unfolding cross_bids
  cross_bids-BidsFine {n} b ask h =
      let emit = auction_outputs clk b.symbol_idx in
      let stop = λ (o : Order) (p : ℤ). ltb_ℤ p iop in
      let f = start_fill b ask in
      record {
        valid = sweep_levels-SideIsValid emit (λ p. iop) stop buy f b.bids h.valid;
        indexed =
            sweep_levels-Indexed emit (λ p. iop) stop buy f b.bids h.valid.sorted h.rising
              h.indexed;
        rising = sweep_levels-AllRising emit (λ p. iop) stop f b.bids h.rising;
        keys = sweep_levels-KeysBelow emit (λ p. iop) stop n f b.bids h.keys;
      }

  -- An ask that the table knows stays known.
  cross_bids-sells :
      {n : ℕ} (b : Book) (ask : Order) (k : ℕ) (q : ℤ)
      → BidsFine n b
      → index_find k b.order_index ≡ some (sell, q)
      → index_find k (cross_bids clk iop b ask).0.order_index ≡ some (sell, q)
  unfolding cross_bids
  cross_bids-sells b ask k q h there =
      sweep_levels-index_find (auction_outputs clk b.symbol_idx) (λ p. iop) (λ o p. ltb_ℤ p iop) k
        (start_fill b ask) b.bids
        (AllWithout-other buy sell q k b.order_index b.bids (λ e. cc) there h.indexed)
      ∙ there

  cross_bids-none :
      {n : ℕ} (b : Book) (ask : Order) (k : ℕ)
      → BidsFine n b
      → index_find k b.order_index ≡ none
      → index_find k (cross_bids clk iop b ask).0.order_index ≡ none
  unfolding cross_bids
  cross_bids-none b ask k h there =
      sweep_levels-none (auction_outputs clk b.symbol_idx) (λ p. iop) (λ o p. ltb_ℤ p iop) buy k
        (start_fill b ask) b.bids h.indexed there

  -- The book after an ask: a filled ask is erased from the table.
  abbrev pub cross_ask : Book → Order → Book
  cross_ask b ask =
      let (b1, ask1, out1) = cross_bids clk iop b ask in
      let index =
        if ask1.remaining_qty == 0
        then index_erase ask1.order_id b1.order_index
        else b1.order_index in
      record b1 { order_index = index }

  pub cross_ask-BidsFine :
      {n : ℕ} (b : Book) (ask : Order) (p : ℤ)
      → Mapped sell b.order_index p ask
      → BidsFine n b
      → BidsFine n (cross_ask b ask)
  cross_ask-BidsFine {n} b ask p there h =
      let (b1, ask1, out1) = cross_bids clk iop b ask in
      let h1 = cross_bids-BidsFine b ask h in
      let same = ap (λ (o : Order). o.order_id) (cross_bids-incoming b ask).0 in
      let there1 = cross_bids-sells b ask ask.order_id p h there in
      elim (Bool-cases (ask1.remaining_qty == 0)) [
        | inl done ↦
            rw (done, same)
              (record {
                valid = h1.valid;
                indexed = Indexed-erase ask.order_id p b1.order_index b1.bids there1 h1.indexed;
                rising = h1.rising;
                keys = index_erase-KeysBelow n ask.order_id b1.order_index h1.keys;
              })
        | inr more ↦
            rw more (record {
              valid = h1.valid;
              indexed = h1.indexed;
              rising = h1.rising;
              keys = h1.keys;
            })
      ]

  pub cross_ask-sells :
      {n : ℕ} (b : Book) (ask : Order) (k : ℕ) (q : ℤ)
      → BidsFine n b
      → ask.order_id ≢ k
      → index_find k b.order_index ≡ some (sell, q)
      → index_find k (cross_ask b ask).order_index ≡ some (sell, q)
  cross_ask-sells b ask k q h ne there =
      let (b1, ask1, out1) = cross_bids clk iop b ask in
      let same = ap (λ (o : Order). o.order_id) (cross_bids-incoming b ask).0 in
      let there1 = cross_bids-sells b ask k q h there in
      elim (Bool-cases (ask1.remaining_qty == 0)) [
        | inl done ↦ rw (done, same) (index_find-erase_ne k ask.order_id b1.order_index ne ∙ there1)
        | inr more ↦ rw more there1
      ]

  -- So does an ask that is left with something.
  pub cross_ask-left :
      {n : ℕ} (b : Book) (ask : Order) (p : ℤ)
      → BidsFine n b
      → (cross_bids clk iop b ask).1.remaining_qty ≢ 0
      → Mapped sell b.order_index p ask
      → Mapped sell (cross_ask b ask).order_index p ask
  cross_ask-left b ask p h left there =
      let there1 = cross_bids-sells b ask ask.order_id p h there in ground arith

  pub cross_ask-none :
      {n : ℕ} (b : Book) (ask : Order) (k : ℕ)
      → BidsFine n b
      → index_find k b.order_index ≡ none
      → index_find k (cross_ask b ask).order_index ≡ none
  cross_ask-none b ask k h there =
      let (b1, ask1, out1) = cross_bids clk iop b ask in
      let there1 = cross_bids-none b ask k h there in
      elim (Bool-cases (ask1.remaining_qty == 0)) [
        | inl done ↦ rw done (index_find-erase_none k ask1.order_id b1.order_index there1)
        | inr more ↦ rw more there1
      ]
