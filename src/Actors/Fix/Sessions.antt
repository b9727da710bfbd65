-- ===== src/Actors/Fix/Sessions.antt =====
-- The sessions of src/actors/FIXAcceptorActor.cpp: who is connected and logged on, what a message
-- does, and which reports are sent. A socket is whether it is open, and the time of the clock is an
-- argument. All that runs under `sessionMutex_` is one step: a message that the thread of a session
-- handles, a report, or the end of a thread, in any order. What a step pushes is handled after it.
-- An `int` is its 32-bit pattern.
pub mod Numbers
pub mod Order
use eu_nex.Common.{
  ℕ, ◌+◌, ◌%◌, ◌^◌, Bool, true, false, not, ◌&&◌, List, [], ◌∷◌, ◌++◌, Option, none, some,
  if◌then◌else◌, lookup, insert, length, map,
}
use eu_nex.Actors.Events.{
  Event, new_order_event, cancel_order_event, modify_order_event, ExecReportEvent,
}
use eu_nex.Actors.Fix.{
  Text, TagMap, eq_text, is_char, Conversions, zero_text, get_tag, handle_new_order_single,
  handle_cancel_request, handle_cancel_replace_request, exec_report_fields,
}
use eu_nex.Actors.Fix.Wire.{fix_text, receive}

-- `receiving` tells whether `recvThread` is in its loop.
pub record FixSession : Type 0 where
  pub session_id : ℕ
  pub sender_comp_id : Text
  pub msg_seq_num : ℕ
  pub logged_on : Bool
  pub connected : Bool
  pub receiving : Bool

pub record FixAcceptor : Type 0 where
  pub sessions : List (ℕ × FixSession)
  pub next_session_id : ℕ
  pub running : Bool

abbrev pub new_fix_acceptor : FixAcceptor
new_fix_acceptor = record { sessions = []; next_session_id = 100; running = true }

-- What is sent: the arguments of `sendFIX`, and the number that the message gets.
pub record Outgoing : Type 0 where
  pub msg_type : Text
  pub comp_id : Text
  pub seq_num : ℕ
  pub fields : List (ℕ × Text)

-- One round of the accept loop: a client is connected.
unfoldable pub accept_client : FixAcceptor → FixAcceptor × ℕ
accept_client a =
    let id = a.next_session_id in
    let sess : FixSession = record {
      session_id = id;
      sender_comp_id = [];
      msg_seq_num = 1;
      logged_on = false;
      connected = true;
      receiving = true;
    } in
    (record a { sessions = insert id sess a.sessions; next_session_id = (id + 1) % 2 ^ 16 }, id)

unfoldable pub client_count : FixAcceptor → ℕ
client_count a = length a.sessions

-- The end of the receive loop, when the client has gone.
abbrev pub hang_up : Option FixSession → ℕ → FixAcceptor → FixAcceptor
hang_up none id a = a
hang_up (some sess) id a = record a {
  sessions = insert id (record sess { connected = false; receiving = false }) a.sessions;
}

unfoldable pub disconnect : ℕ → FixAcceptor → FixAcceptor
disconnect id a = hang_up (lookup id a.sessions) id a

-- `stop`, where the threads that it joins have ended.
unfoldable pub stop : FixAcceptor → FixAcceptor
stop a = if a.running then record a { sessions = []; running = false } else a

unfoldable pub send_fix : Text → List (ℕ × Text) → FixSession → FixSession × Outgoing
send_fix msg_type fields sess = (
  record sess { msg_seq_num = (sess.msg_seq_num + 1) % 2 ^ 32 },
  record {
    msg_type = msg_type;
    comp_id = sess.sender_comp_id;
    seq_num = sess.msg_seq_num;
    fields = fields;
  },
)

-- "UNKNOWN"
abbrev pub unknown : Text
unknown = 85 ∷ 78 ∷ 75 ∷ 78 ∷ 79 ∷ 87 ∷ 78 ∷ []

unfoldable pub handle_logon : TagMap → FixSession → FixSession × Outgoing
unfolding get_tag send_fix
handle_logon msg sess =
    send_fix (65 ∷ []) ((98, zero_text) ∷ (108, 51 ∷ 48 ∷ []) ∷ [])
      (record sess { sender_comp_id = get_tag msg 49 unknown; logged_on = true })

-- What one message leads to: the session, what is sent, what is pushed to the order entry gateway,
-- and whether the thread goes on.
pub record Effect : Type 0 where
  pub session : FixSession
  pub sent : List Outgoing
  pub pushed : List Event
  pub goes_on : Bool

abbrev pub answers : Bool → FixSession × Outgoing → Effect
answers goes_on (sess, out) = record {
  session = sess;
  sent = out ∷ [];
  pushed = [];
  goes_on = goes_on;
}

abbrev pub pushes : FixSession → List Event → Effect
pushes sess es = record { session = sess; sent = []; pushed = es; goes_on = true }

pub data Step : Type 0 where
  message : ℕ → TagMap → Step
  report : ExecReportEvent → Step
  hang_up_of : ℕ → Step

-- What steps lead to, each message and each event with the session that it is for or from.
pub record Trace : Type 0 where
  pub acceptor : FixAcceptor
  pub sent : List (ℕ × Outgoing)
  pub pushed : List (ℕ × Event)

abbrev pub trace_of : ℕ → FixAcceptor × List Outgoing × List Event → Trace
trace_of id (a, sent, pushed) = record {
  acceptor = a;
  sent = map (λ o. (id, o)) sent;
  pushed = map (λ e. (id, e)) pushed;
}

module _ (std : Conversions) where
  unfoldable pub handle_message : TagMap → FixSession → Effect
  unfolding get_tag send_fix handle_logon handle_new_order_single handle_cancel_request
      handle_cancel_replace_request
  handle_message msg sess =
      let msg_type = get_tag msg 35 [] in
      let id = sess.session_id in
      if is_char 65 msg_type
      then answers true (handle_logon msg sess)
      else if is_char 53 msg_type
      then answers false (send_fix (53 ∷ []) [] sess)
      else if is_char 48 msg_type
      then answers true (send_fix (48 ∷ []) [] sess)
      else if is_char 68 msg_type
      then pushes sess (new_order_event (handle_new_order_single std id msg) ∷ [])
      else if is_char 70 msg_type
      then pushes sess (cancel_order_event (handle_cancel_request std id msg) ∷ [])
      else if is_char 71 msg_type
      then pushes sess (modify_order_event (handle_cancel_replace_request std id msg) ∷ [])
      else pushes sess []

  abbrev pub report_to :
      Option FixSession → ExecReportEvent → FixAcceptor → FixAcceptor × List Outgoing
  report_to none e a = (a, [])
  report_to (some sess) e a =
      let (sess1, out) = send_fix (56 ∷ []) (exec_report_fields std e) sess in
      if sess.logged_on
      then (record a { sessions = insert e.session_id sess1 a.sessions }, out ∷ [])
      else (a, [])

  -- `sendExecReport`, which the handler of the event calls.
  unfoldable pub send_exec_report : ExecReportEvent → FixAcceptor → FixAcceptor × List Outgoing
  unfolding exec_report_fields send_fix
  send_exec_report e a = report_to (lookup e.session_id a.sessions) e a

  -- The thread of the session takes the lock and looks the session up for each message. After a
  -- logout it returns.
  abbrev pub message_to :
      Option FixSession → ℕ → TagMap → FixAcceptor → FixAcceptor × List Outgoing × List Event
  message_to none id msg a = (a, [], [])
  message_to (some sess) id msg a =
      let e = handle_message msg sess in
      let sess1 = record e.session { receiving = e.goes_on } in
      if sess.receiving
      then (record a { sessions = insert id sess1 a.sessions }, e.sent, e.pushed)
      else (a, [], [])

  -- A step: what each session is sent, and what its thread pushes to the order entry gateway.
  unfoldable pub step : Step → FixAcceptor → Trace
  unfolding handle_message send_exec_report disconnect
  step (message id msg) a = trace_of id (message_to (lookup id a.sessions) id msg a)
  step (report e) a = let (a1, sent) = send_exec_report e a in trace_of e.session_id (a1, sent, [])
  step (hang_up_of id) a = trace_of id (disconnect id a, [], [])

  -- Any order of the steps of all threads.
  unfoldable pub run : List Step → FixAcceptor → Trace
  unfolding step
  run [] a = record { acceptor = a; sent = []; pushed = [] }
  run (s ∷ ss) a =
      let first = step s a in
      let rest = run ss first.acceptor in
      record {
        acceptor = rest.acceptor;
        sent = first.sent ++ rest.sent;
        pushed = first.pushed ++ rest.pushed;
      }

  unfoldable pub outgoing_text : Text → Outgoing → Text
  unfolding fix_text
  outgoing_text time out = fix_text std out.msg_type out.comp_id out.seq_num time out.fields
