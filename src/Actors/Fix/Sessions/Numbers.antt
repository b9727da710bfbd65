-- ===== src/Actors/Fix/Sessions/Numbers.antt =====
-- The number that one step of a session of src/actors/FIXAcceptorActor.cpp gives to its message, and
-- what the step passes on.
use eu_nex.Common.{
  ◌≤◌, ◌<◌, ◌^◌, ℕ, ◌+◌, ◌≡◌, refl, subst, Bool, true, false, List, [], ◌∷◌, ◌++◌, arith, All,
  if◌then◌else◌, length,
}
use eu_nex.Actors.Events.{Event, new_order_event, cancel_order_event, modify_order_event}
use eu_nex.Actors.Fix.{
  Text, zero_text, TagMap, Conversions, is_char, get_tag, handle_new_order_single,
  handle_cancel_request, handle_cancel_replace_request,
}
use eu_nex.Actors.Fix.Sessions.{
  FixSession, Outgoing, Effect, unknown, answers, pushes, send_fix, handle_logon, handle_message,
}

-- Numbers that follow one another from `n` on.
abbrev pub NumberedFrom : ℕ → List Outgoing → Type 0
NumberedFrom n [] = Unit
NumberedFrom n (o ∷ os) = (o.seq_num ≡ n) × NumberedFrom (n + 1) os

pub NumberedFrom-append :
    (n : ℕ) (os ps : List Outgoing)
    → NumberedFrom n os
    → NumberedFrom (n + length os) ps
    → NumberedFrom n (os ++ ps)
NumberedFrom-append n [] ps h k = subst (λ m. NumberedFrom m ps) (omega arith) k
NumberedFrom-append n (o ∷ os) ps h k =
    (h.0, NumberedFrom-append (n + 1) os ps h.1 (subst (λ m. NumberedFrom m ps) (omega arith) k))

-- The event is for the session.
abbrev pub FromSession : ℕ → Event → Type 0
FromSession id (new_order_event e) = e.session_id ≡ id
FromSession id (cancel_order_event e) = e.session_id ≡ id
FromSession id (modify_order_event e) = e.session_id ≡ id
FromSession id _ = true ≡ false

-- A step of one session: at most one message, under the number of the session.
pub record Numbered (sess : FixSession) (e : Effect) : Type 0 where
  pub numbers : NumberedFrom sess.msg_seq_num e.sent
  pub next :
      sess.msg_seq_num + 1 < 2 ^ 31 → e.session.msg_seq_num ≡ sess.msg_seq_num + length e.sent
  pub few : length e.sent ≤ 1
  pub session_id : e.session.session_id ≡ sess.session_id
  pub own : All (FromSession sess.session_id) e.pushed

either-Numbered :
    (sess : FixSession) (b : Bool) (e f : Effect)
    → Numbered sess e
    → Numbered sess f
    → Numbered sess (if b then e else f)
either-Numbered sess true e f h k = h
either-Numbered sess false e f h k = k

-- One message is sent, and nothing is passed on.
pub answers-Numbered :
    (sess : FixSession) (goes_on logged_on : Bool) (msg_type comp_id : Text)
    (fields : List (ℕ × Text))
    → let sess1 = record sess { sender_comp_id = comp_id; logged_on = logged_on } in
      Numbered sess (answers goes_on (send_fix msg_type fields sess1))
unfolding send_fix
answers-Numbered sess goes_on logged_on msg_type comp_id fields = record {
  numbers = (refl, tt);
  next = λ room. omega arith;
  few = omega arith;
  session_id = refl;
  own = tt;
}

pub pushes-Numbered :
    (sess : FixSession) (es : List Event)
    → All (FromSession sess.session_id) es
    → Numbered sess (pushes sess es)
pushes-Numbered sess es h = record {
  numbers = tt;
  next = λ room. omega arith;
  few = omega arith;
  session_id = refl;
  own = h;
}

module _ (std : Conversions) where
  pub handle_message-Numbered :
      (msg : TagMap) (sess : FixSession) → Numbered sess (handle_message std msg sess)
  unfolding handle_message handle_logon handle_new_order_single handle_cancel_request
      handle_cancel_replace_request
  handle_message-Numbered msg sess =
      let id = sess.session_id in
      let t = get_tag msg 35 [] in
      let fields = (98, zero_text) ∷ (108, 51 ∷ 48 ∷ []) ∷ [] in
      either-Numbered sess (is_char 65 t) _ _
        (answers-Numbered sess true true (65 ∷ []) (get_tag msg 49 unknown) fields)
        (either-Numbered sess (is_char 53 t) _ _
          (answers-Numbered sess false sess.logged_on (53 ∷ []) sess.sender_comp_id [])
          (either-Numbered sess (is_char 48 t) _ _
            (answers-Numbered sess true sess.logged_on (48 ∷ []) sess.sender_comp_id [])
            (either-Numbered sess (is_char 68 t) _ _
              (pushes-Numbered sess (new_order_event (handle_new_order_single std id msg) ∷ [])
                (refl, tt))
              (either-Numbered sess (is_char 70 t) _ _
                (pushes-Numbered sess (cancel_order_event (handle_cancel_request std id msg) ∷ [])
                  (refl, tt))
                (either-Numbered sess (is_char 71 t) _ _
                  (pushes-Numbered sess
                    (modify_order_event (handle_cancel_replace_request std id msg) ∷ []) (refl, tt))
                  (pushes-Numbered sess [] tt))))))
