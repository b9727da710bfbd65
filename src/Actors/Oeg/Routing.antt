-- ===== src/Actors/Oeg/Routing.antt =====
-- Where the gateway (src/actors/OEGActor.cpp) sends its events.
use eu_nex.Common.{
  zero, suc, ℕ, ◌≡◌, refl, sym, ap, ◌∙◌, List, Bool-cases, inl, inr, append-nil, append_assoc, map,
  [], ◌∷◌, ◌++◌, arith, ◌==◌, if◌then◌else◌, lookup-insert,
}
use eu_nex.Common.Int.{pos}
use eu_nex.Actors.Events.{
  Event, Push, NewOrderEvent, CancelOrderEvent, ModifyOrderEvent, ExecReportEvent, new_order_event,
  cancel_order_event, modify_order_event, exec_report_event,
}
use eu_nex.Actors.Oeg.{
  Oeg, map_symbol, on_new_order, on_cancel_order, on_modify_order, on_exec_report,
}

-- Once a symbol is mapped to an actor, the three requests for it go to that actor and to no other,
-- and those for other symbols go where they went before.
pub map_symbol-routes :
    (symbol_idx actor_id : ℕ) (n : NewOrderEvent) (c : CancelOrderEvent) (m : ModifyOrderEvent)
    (g : Oeg)
    → let g' = map_symbol symbol_idx actor_id g in
      (on_new_order n g' ≡ (
        if symbol_idx == n.symbol_idx
        then (actor_id, new_order_event (record n { stop_price = pos 0 })) ∷ []
        else on_new_order n g))
      × (on_cancel_order c g' ≡ (
          if symbol_idx == c.symbol_idx
          then (actor_id, cancel_order_event c) ∷ []
          else on_cancel_order c g))
      × (on_modify_order m g' ≡ (
          if symbol_idx == m.symbol_idx
          then (actor_id, modify_order_event m) ∷ []
          else on_modify_order m g))
unfolding map_symbol on_new_order on_cancel_order on_modify_order
map_symbol-routes symbol_idx actor_id n c m g = (
  ground (arith, lookup-insert n.symbol_idx symbol_idx actor_id g.symbol_map),
  ground (arith, lookup-insert c.symbol_idx symbol_idx actor_id g.symbol_map),
  ground (arith, lookup-insert m.symbol_idx symbol_idx actor_id g.symbol_map),
)

-- Reports that the gateway handles one after the other.
unfoldable pub on_exec_reports : List ExecReportEvent → Oeg → Oeg × List Push
unfolding on_exec_report
on_exec_reports [] g = (g, [])
on_exec_reports (e ∷ es) g =
    let (g1, pushed) = on_exec_report e g in
    let (g2, later) = on_exec_reports es g1 in (g2, pushed ++ later)

-- What one actor receives.
abbrev pub events_to : ℕ → List Push → List Event
events_to id [] = []
events_to id (p ∷ ps) = if p.0 == id then p.1 ∷ events_to id ps else events_to id ps

abbrev pub times_in : ℕ → List ℕ → ℕ
times_in id [] = 0
times_in id (i ∷ is) = if i == id then suc (times_in id is) else times_in id is

events_to-append :
    (id : ℕ) (ps qs : List Push) → events_to id (ps ++ qs) ≡ events_to id ps ++ events_to id qs
events_to-append id [] qs = refl
events_to-append id (p ∷ ps) qs = elim (Bool-cases (p.0 == id)) [
  | inl same ↦ rw same (ap (λ es. p.1 ∷ es) (events_to-append id ps qs))
  | inr other ↦ rw other (events_to-append id ps qs)
]

abbrev pub times : ℕ → Event → List Event
times zero e = []
times (suc n) e = e ∷ times n e

-- Each of the reports, `n` times.
abbrev pub each_times : ℕ → List ExecReportEvent → List Event
each_times n [] = []
each_times n (e ∷ es) = times n (exec_report_event e) ++ each_times n es

events_to-times :
    (id : ℕ) (e : Event) (is : List ℕ)
    → events_to id (map (λ i. (i, e)) is) ≡ times (times_in id is) e
events_to-times id e [] = refl
events_to-times id e (i ∷ is) = elim (Bool-cases (i == id)) [
  | inl same ↦ rw same (ap (λ es. e ∷ es) (events_to-times id e is))
  | inr other ↦ rw other (events_to-times id e is)
]

-- Over any run of reports, an actor receives each of them as many times as it has subscribed, which
-- is none if it has not, in the order in which the gateway got them; and the gateway keeps them all,
-- in order, behind those that it has. Subscriptions and routes stay.
pub on_exec_reports-each_times :
    (id : ℕ) (es : List ExecReportEvent) (g : Oeg)
    → let (g', pushed) = on_exec_reports es g in
      (events_to id pushed ≡ each_times (times_in id g.exec_report_subscribers) es)
      × (g'.reports ≡ g.reports ++ es)
      × (g'.exec_report_subscribers ≡ g.exec_report_subscribers)
      × (g'.symbol_map ≡ g.symbol_map)
unfolding on_exec_reports on_exec_report
on_exec_reports-each_times id [] g = (refl, sym (append-nil g.reports), refl, refl)
on_exec_reports-each_times id (e ∷ es) g =
    let is = g.exec_report_subscribers in
    let (g1, pushed) = on_exec_report e g in
    let (here, kept, subscribed, routed) = on_exec_reports-each_times id es g1 in
    let later = (on_exec_reports es g1).1 in
    (
      events_to-append id pushed later
          ∙ ap (λ ps. ps ++ events_to id later) (events_to-times id (exec_report_event e) is)
          ∙ ap (λ ps. times (times_in id is) (exec_report_event e) ++ ps) here,
      kept ∙ append_assoc g.reports (e ∷ []) es,
      subscribed,
      routed,
    )
