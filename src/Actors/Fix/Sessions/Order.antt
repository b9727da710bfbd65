-- ===== src/Actors/Fix/Sessions/Order.antt =====
-- The numbers of the messages that a session of src/actors/FIXAcceptorActor.cpp is sent, whatever its
-- threads do.
use eu_nex.Common.{
  ==_iff, sym, ap, ◌≤◌, ◌<◌, ◌^◌, ◌==◌, map, some, none, Option, Bool-cases, inl, inr, lookup,
  insert, lookup-insert, ℕ, ◌+◌, ◌≡◌, refl, ◌∙◌, subst, Bool, true, false, List, [], ◌∷◌, ◌++◌,
  arith, All, All-append, if◌then◌else◌, length, length-append,
}
use eu_nex.Actors.Events.{ExecReportEvent, Event}
use eu_nex.Actors.Fix.{exec_report_fields, TagMap, Conversions}
use eu_nex.Actors.Fix.Sessions.{
  FixSession, FixAcceptor, Outgoing, Effect, answers, pushes, send_fix, handle_message, Trace,
  trace_of, message_to, report_to, hang_up, Step, message, report, hang_up_of, step, run,
  send_exec_report, disconnect,
}
use eu_nex.Actors.Fix.Sessions.Numbers.{
  NumberedFrom, NumberedFrom-append, FromSession, Numbered, answers-Numbered,
  handle_message-Numbered,
}

branch : {A : Type 0} (P : A → Type 0) (c : Bool) (x y : A) → P x → P y → P (if c then x else y)
branch P true x y h k = h
branch P false x y h k = k

module _ (std : Conversions) where
  -- What the steps send to one session.
  abbrev pub sent_to : ℕ → List (ℕ × Outgoing) → List Outgoing
  sent_to id [] = []
  sent_to id (p ∷ ps) = if p.0 == id then p.1 ∷ sent_to id ps else sent_to id ps

  sent_to-append :
      (id : ℕ) (ps qs : List (ℕ × Outgoing))
      → sent_to id (ps ++ qs) ≡ sent_to id ps ++ sent_to id qs
  sent_to-append id [] qs = refl
  sent_to-append id (p ∷ ps) qs = elim (Bool-cases (p.0 == id)) [
    | inl same ↦ rw same (ap (λ os. p.1 ∷ os) (sent_to-append id ps qs))
    | inr other ↦ rw other (sent_to-append id ps qs)
  ]

  sent_to-map :
      (id i : ℕ) (os : List Outgoing)
      → sent_to id (map (λ o. (i, o)) os) ≡ (if i == id then os else [])
  sent_to-map id i [] = elim (Bool-cases (i == id)) [ inl e ↦ rw e refl | inr e ↦ rw e refl ]
  sent_to-map id i (o ∷ os) = elim (Bool-cases (i == id)) [
    | inl e ↦ rw e (ap (λ t. o ∷ t) (sent_to-map id i os ∙ rw e refl))
    | inr e ↦ rw e (sent_to-map id i os ∙ rw e refl)
  ]

  abbrev pub AllFrom : List (ℕ × Event) → Type 0
  AllFrom ps = All (λ p. FromSession p.0 p.1) ps

  AllFrom-map : (i : ℕ) (es : List Event) → All (FromSession i) es → AllFrom (map (λ e. (i, e)) es)
  AllFrom-map i [] h = tt
  AllFrom-map i (e ∷ es) h = (h.0, AllFrom-map i es h.1)

  -- Each session stands under its own identifier.
  abbrev pub IsKeyed : FixAcceptor → Type 0
  IsKeyed a = All (λ e. e.1.session_id ≡ e.0) a.sessions

  lookup-keyed :
      (i : ℕ) (m : List (ℕ × FixSession)) {x : FixSession}
      → All (λ e. e.1.session_id ≡ e.0) m
      → lookup i m ≡ some x
      → x.session_id ≡ i
  lookup-keyed i [] h found = ground arith
  lookup-keyed i (e ∷ m) h found = elim (Bool-cases (e.0 == i)) [
    | inl same ↦ ground (arith, h.0, found)
    | inr other ↦ lookup-keyed i m h.1 (rw other at found)
  ]

  insert-keyed :
      (i : ℕ) (x : FixSession) (m : List (ℕ × FixSession))
      → x.session_id ≡ i
      → All (λ e. e.1.session_id ≡ e.0) m
      → All (λ e. e.1.session_id ≡ e.0) (insert i x m)
  insert-keyed i x [] own h = (own, tt)
  insert-keyed i x (e ∷ m) own h = elim (Bool-cases (e.0 == i)) [
    | inl same ↦ rw same (own, h.1)
    | inr other ↦ rw other (h.0, insert-keyed i x m own h.1)
  ]

  -- What holds of a trace, seen from the session `id` that had the number `n`.
  pub record InOrder (id n : ℕ) (t : Trace) : Type 0 where
    pub numbers : NumberedFrom n (sent_to id t.sent)
    pub next :
        (sess : FixSession) × ((lookup id t.acceptor.sessions ≡ some sess)
          × (sess.msg_seq_num ≡ n + length (sent_to id t.sent)))
    pub keyed : IsKeyed t.acceptor
    pub own : AllFrom t.pushed

  -- A step that changes nothing.
  quiet :
      (id : ℕ) (sess : FixSession) (a : FixAcceptor)
      → lookup id a.sessions ≡ some sess
      → IsKeyed a
      → InOrder id sess.msg_seq_num (record { acceptor = a; sent = []; pushed = [] })
  quiet id sess a there keyed = record {
    numbers = tt;
    next = (sess, (there, omega arith));
    keyed = keyed;
    own = tt;
  }

  number_of : {x y : FixSession} → some x ≡ some y → x.msg_seq_num ≡ y.msg_seq_num
  number_of same = ground arith

  -- One session is changed, and it may be another one.
  one_session :
      (id i : ℕ) (sess x : FixSession) (e : Effect) (a : FixAcceptor)
      → lookup id a.sessions ≡ some sess
      → lookup i a.sessions ≡ some x
      → IsKeyed a
      → sess.msg_seq_num + 1 < 2 ^ 31
      → Numbered x e
      → let t : Trace = record {
        acceptor = record a { sessions = insert i e.session a.sessions };
        sent = map (λ o. (i, o)) e.sent;
        pushed = map (λ v. (i, v)) e.pushed;
      } in
        InOrder id sess.msg_seq_num t × (length (sent_to id t.sent) ≤ 1)
  one_session id i sess x e a there here keyed room h =
      let own_id = lookup-keyed i a.sessions keyed here in
      let key1 = insert-keyed i e.session a.sessions (h.session_id ∙ own_id) keyed in
      let own1 = AllFrom-map i e.pushed (subst (λ n. All (FromSession n) e.pushed) own_id h.own) in
      let found = lookup-insert id i e.session a.sessions in
      let shown = sent_to-map id i e.sent in
      elim (Bool-cases (i == id)) [
        | inl same ↦
            let its = rw same at shown in
            let x_there : some x ≡ some sess =
              sym here ∙ ap (λ k. lookup k a.sessions) ((==_iff i id).0 same) ∙ there in
            let n : x.msg_seq_num ≡ sess.msg_seq_num = number_of x_there in
            let up = h.next (omega arith) in
            (
              record {
                numbers =
                    subst (NumberedFrom sess.msg_seq_num) (sym its)
                      (subst (λ m. NumberedFrom m e.sent) n h.numbers);
                next = (
                  e.session,
                  (
                    found ∙ rw same refl,
                    up
                        ∙ ap (λ m. m + length e.sent) n
                        ∙ ap (λ os. sess.msg_seq_num + length os) (sym its),
                  ),
                );
                keyed = key1;
                own = own1;
              },
              subst (λ os. length os ≤ 1) (sym its) h.few,
            )
        | inr other ↦
            let its = rw other at shown in
            let same_number : sess.msg_seq_num ≡ sess.msg_seq_num + 0 = omega arith in
            (
              record {
                numbers = subst (NumberedFrom sess.msg_seq_num) (sym its) tt;
                next = (
                  sess,
                  (
                    found ∙ rw other there,
                    same_number ∙ ap (λ os. sess.msg_seq_num + length os) (sym its),
                  ),
                );
                keyed = key1;
                own = own1;
              },
              subst (λ os. length os ≤ 1) (sym its) (omega arith),
            )
      ]

  abbrev StepInOrder : ℕ → ℕ → Trace → Type 0
  StepInOrder id n t = InOrder id n t × (length (sent_to id t.sent) ≤ 1)

  message-InOrder :
      (i : ℕ) (msg : TagMap) (id : ℕ) (sess : FixSession) (a : FixAcceptor) (r : Option FixSession)
      → lookup i a.sessions ≡ r
      → lookup id a.sessions ≡ some sess
      → IsKeyed a
      → sess.msg_seq_num + 1 < 2 ^ 31
      → StepInOrder id sess.msg_seq_num (trace_of i (message_to std r i msg a))
  message-InOrder i msg id sess a none here there keyed room =
      (quiet id sess a there keyed, omega arith)
  message-InOrder i msg id sess a (some x) here there keyed room =
      let e = handle_message std msg x in
      let e1 : Effect = record e { session = record e.session { receiving = e.goes_on } } in
      let h = handle_message-Numbered std msg x in
      let h1 : Numbered x e1 = record {
        numbers = h.numbers;
        next = h.next;
        few = h.few;
        session_id = h.session_id;
        own = h.own;
      } in
      branch (λ t. StepInOrder id sess.msg_seq_num (trace_of i t)) x.receiving _ _
        (one_session id i sess x e1 a there here keyed room h1)
        (quiet id sess a there keyed, omega arith)

  report-InOrder :
      (rpt : ExecReportEvent) (id : ℕ) (sess : FixSession) (a : FixAcceptor) (r : Option FixSession)
      → lookup rpt.session_id a.sessions ≡ r
      → lookup id a.sessions ≡ some sess
      → IsKeyed a
      → sess.msg_seq_num + 1 < 2 ^ 31
      → let (a1, sent) = report_to std r rpt a in
        StepInOrder id sess.msg_seq_num (trace_of rpt.session_id (a1, sent, []))
  report-InOrder rpt id sess a none here there keyed room =
      (quiet id sess a there keyed, omega arith)
  report-InOrder rpt id sess a (some x) here there keyed room =
      let i = rpt.session_id in
      let fields = exec_report_fields std rpt in
      let e = answers true (send_fix (56 ∷ []) fields x) in
      let h = answers-Numbered x true x.logged_on (56 ∷ []) x.sender_comp_id fields in
      branch
        (λ (t : FixAcceptor × List Outgoing).
          StepInOrder id sess.msg_seq_num (trace_of i (t.0, t.1, [])))
        x.logged_on _ _ (one_session id i sess x e a there here keyed room h)
        (quiet id sess a there keyed, omega arith)

  hang_up-InOrder :
      (i id : ℕ) (sess : FixSession) (a : FixAcceptor) (r : Option FixSession)
      → lookup i a.sessions ≡ r
      → lookup id a.sessions ≡ some sess
      → IsKeyed a
      → sess.msg_seq_num + 1 < 2 ^ 31
      → StepInOrder id sess.msg_seq_num (trace_of i (hang_up r i a, [], []))
  hang_up-InOrder i id sess a none here there keyed room =
      (quiet id sess a there keyed, omega arith)
  hang_up-InOrder i id sess a (some x) here there keyed room =
      let e = pushes (record x { connected = false; receiving = false }) [] in
      let h : Numbered x e = record {
        numbers = tt;
        next = λ up. omega arith;
        few = omega arith;
        session_id = refl;
        own = tt;
      } in
      one_session id i sess x e a there here keyed room h

  step-InOrder :
      (s : Step) (id : ℕ) (sess : FixSession) (a : FixAcceptor)
      → lookup id a.sessions ≡ some sess
      → IsKeyed a
      → sess.msg_seq_num + 1 < 2 ^ 31
      → StepInOrder id sess.msg_seq_num (step std s a)
  unfolding step send_exec_report disconnect
  step-InOrder (message i msg) id sess a = message-InOrder i msg id sess a _ refl
  step-InOrder (report rpt) id sess a = report-InOrder rpt id sess a _ refl
  step-InOrder (hang_up_of i) id sess a = hang_up-InOrder i id sess a _ refl

  -- Whatever the threads of all sessions do and whatever reports come between, in any order, while
  -- no client is accepted and the number of a session does not reach 2^31: the messages that the
  -- session is sent, replies and reports together, carry the numbers that follow one another from
  -- its own, which ends up behind the last of them. Every request that is passed on carries the
  -- identifier of the session that it came from, whether that is logged on or not.
  pub run-InOrder :
      (steps : List Step) (id : ℕ) (sess : FixSession) (a : FixAcceptor)
      → lookup id a.sessions ≡ some sess
      → IsKeyed a
      → sess.msg_seq_num + length steps < 2 ^ 31
      → InOrder id sess.msg_seq_num (run std steps a)
  unfolding run
  run-InOrder [] id sess a there keyed room = quiet id sess a there keyed
  run-InOrder (s ∷ steps) id sess a there keyed room =
      let n = sess.msg_seq_num in
      let first = step std s a in
      let (one, few) = step-InOrder s id sess a there keyed (omega arith) in
      let (sess1, (there1, up)) = one.next in
      let rest = run-InOrder steps id sess1 first.acceptor there1 one.keyed (omega arith) in
      let all = run std steps first.acceptor in
      let parts = sent_to-append id first.sent all.sent in
      let (sess2, (there2, up2)) = rest.next in
      let both = length-append (sent_to id first.sent) (sent_to id all.sent) in
      record {
        numbers = subst (NumberedFrom n) (sym parts) (
            NumberedFrom-append n (sent_to id first.sent) (sent_to id all.sent) one.numbers
              (subst (λ m. NumberedFrom m (sent_to id all.sent)) up rest.numbers));
        next =
            (sess2, (there2, omega (arith, up2, up, both) ∙ ap (λ os. n + length os) (sym parts)));
        keyed = rest.keyed;
        own = All-append (λ p. FromSession p.0 p.1) first.pushed all.pushed one.own rest.own;
      }
