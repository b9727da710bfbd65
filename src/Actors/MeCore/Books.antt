-- ===== src/Actors/MeCore/Books.antt =====
-- The handlers of src/actors/MECoreActor.cpp keep the book's invariants.
use eu_nex.Common.{◌<◌, ◌≡◌, false, none, arith, u64_mod, Option-cases, inl, inr, subst, sym}
use eu_nex.Types.{Order}
use eu_nex.Book.State.{Clock, Book}
use eu_nex.Book.Entry.{new_order, accumulates}
use eu_nex.Book.Cancel.{cancel_order, modify_order}
use eu_nex.Book.Stops.{trigger_stop_orders}
use eu_nex.Book.Validity.{IsValid, IsUncrossed}
use eu_nex.Book.Validity.Entry.{new_order-IsValid}
use eu_nex.Book.Validity.Uncrossed.{new_order-IsUncrossed}
use eu_nex.Book.Validity.Cancel.{cancel_order-IsValid}
use eu_nex.Book.Validity.Modify.{modify_order-IsValid}
use eu_nex.Book.Validity.Stops.{
  trigger_stop_orders-IsValid, trigger_stop_orders-IsUncrossed, new_order-phase,
}
use eu_nex.Actors.Events.{NewOrderEvent, CancelOrderEvent, ModifyOrderEvent}
use eu_nex.Actors.MeCore.{
  MeCore, order_of, enter_order, on_new_order, on_cancel_order, on_modify_order,
}

-- What holds after the new order and stays when stop orders are triggered holds at the end.
enter_order_cases {ℓ} :
    (P : Book → Type ℓ) (clk : Clock) (b : Book) (o : Order)
    → P (new_order clk b o).0
    → P (trigger_stop_orders clk (new_order clk b o).0.last_trade_price (new_order clk b o).0).0
    → P (enter_order clk b o).0
unfolding enter_order
enter_order_cases P clk b o h k = ground arith

-- A new order event for a positive quantity below 2^64 keeps a valid book valid, stop orders that
-- it triggers included; unless the phase accumulates orders, it leaves no bid at or above an ask,
-- if there was none before.
pub on_new_order-IsValid :
    (clk : Clock) (e : NewOrderEvent) (me : MeCore)
    → 0 < e.quantity
    → e.quantity < u64_mod
    → IsValid me.book
    → let b = (on_new_order clk e me).0.book in
      IsValid b × (accumulates me.book.phase ≡ false → IsUncrossed me.book → IsUncrossed b)
unfolding on_new_order order_of
on_new_order-IsValid clk e me h k v =
    let o = order_of e in
    let b1 = (new_order clk me.book o).0 in
    let v1 = new_order-IsValid clk me.book o h k v in
    (
      enter_order_cases IsValid clk me.book o v1
          (trigger_stop_orders-IsValid clk b1.last_trade_price b1 v1),
      λ phase u.
          let u1 = new_order-IsUncrossed clk me.book o phase v u in
          enter_order_cases IsUncrossed clk me.book o u1 (
            trigger_stop_orders-IsUncrossed clk b1.last_trade_price b1
              (subst (λ t. accumulates t ≡ false) (sym (new_order-phase clk me.book o)) phase) v1
              u1),
    )

-- A cancel event keeps a valid book valid; one that is refused leaves the actor as it was.
pub on_cancel_order-IsValid :
    (e : CancelOrderEvent) (me : MeCore)
    → IsValid me.book
    → IsValid (on_cancel_order e me).0.book
      × (cancel_order e.order_id me.book ≡ none → (on_cancel_order e me).0 ≡ me)
unfolding on_cancel_order
on_cancel_order-IsValid e me v = (
  elim (Option-cases (cancel_order e.order_id me.book)) [
    | inl refused ↦ rw refused v
    | inr ((b, rpt), done) ↦ rw done (cancel_order-IsValid e.order_id me.book v done)
  ],
  λ refused. rw refused,
)

-- A modify event for a positive quantity below 2^64 keeps a valid book valid, whether it is
-- carried out or refused.
pub on_modify_order-IsValid :
    (clk : Clock) (e : ModifyOrderEvent) (me : MeCore)
    → 0 < e.new_quantity
    → e.new_quantity < u64_mod
    → IsValid me.book
    → IsValid (on_modify_order clk e me).0.book
unfolding on_modify_order
on_modify_order-IsValid clk e me h k v =
    elim (Option-cases (modify_order clk e.order_id e.new_price e.new_quantity me.book)) [
      | inl refused ↦ rw refused v
      | inr ((b, rpt), done) ↦
          rw done
            (modify_order-IsValid clk e.order_id e.new_price e.new_quantity me.book h k v done)
    ]
