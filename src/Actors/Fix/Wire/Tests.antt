-- ===== src/Actors/Fix/Wire/Tests.antt =====
-- The theorems about the texts and sessions of src/actors/FIXAcceptorActor.cpp at a sample.
use eu_nex.Common.{ℕ, ◌+◌, ◌*◌, ◌≡◌, refl, true, false, List, [], ◌∷◌, ◌++◌, none, arith, map}
use eu_nex.Actors.Fix.{Text}
use eu_nex.Actors.Fix.Wire.{soh, split_message, split_check, parse_fix_messages, fields_text}
use eu_nex.Actors.Fix.Wire.Chunks.{joined, receive_all, receive_all-parse_fix_messages}
use eu_nex.Actors.Fix.Wire.Parsing.{split_message-nil, parse_fix_messages-rest}
use eu_nex.Actors.Fix.Wire.RoundTrip.{messages_text, tags_of, parse_fix_messages-messages_text}
use eu_nex.Actors.Fix.Sessions.{FixSession, FixAcceptor, Step, message, report, run}
use eu_nex.Types.{filled}
use eu_nex.Common.Int.{pos}
use eu_nex.Actors.Events.{ExecReportEvent}
use eu_nex.Actors.Fix.Sessions.Order.{InOrder, run-InOrder}
use eu_nex.Actors.Fix.Tests.{decimal}

unfoldable atoi : Text → ℕ
atoi [] = 0
atoi (c ∷ cs) = atoi cs * 7 + c

-- A logon and an order, each with its check sum, and the beginning of another message.
abbrev logon : List (Text × Text) × Text
logon = ((51 ∷ 53 ∷ [], 65 ∷ []) ∷ (52 ∷ 57 ∷ [], 77 ∷ 69 ∷ []) ∷ [], 48 ∷ 49 ∷ 50 ∷ [])

abbrev order : List (Text × Text) × Text
order = ((51 ∷ 53 ∷ [], 68 ∷ []) ∷ (49 ∷ 49 ∷ [], 55 ∷ []) ∷ [], 49 ∷ 53 ∷ 55 ∷ [])

abbrev partial : Text
partial = 51 ∷ 53 ∷ 61 ∷ 48 ∷ []

parse_fix_messages-rest_example :
    split_message (parse_fix_messages atoi (messages_text (logon ∷ []) ++ partial)).1 ≡ none
parse_fix_messages-rest_example =
    parse_fix_messages-rest atoi (messages_text (logon ∷ []) ++ partial)

parse_fix_messages-messages_text_example :
    parse_fix_messages atoi (messages_text (logon ∷ order ∷ []) ++ partial)
    ≡ (map (tags_of atoi) (logon ∷ order ∷ []), partial)
unfolding split_message split_check fields_text
parse_fix_messages-messages_text_example =
    parse_fix_messages-messages_text atoi (logon ∷ order ∷ []) partial (ground arith) refl

-- The first message is cut in two, the second in three.
abbrev chunks : List Text
chunks =
    (51 ∷ 53 ∷ [])
    ∷ (61 ∷ 65 ∷ soh ∷ 49 ∷ 48 ∷ 61 ∷ 48 ∷ soh ∷ 51 ∷ 53 ∷ 61 ∷ [])
    ∷ (68 ∷ soh ∷ 49 ∷ [])
    ∷ (48 ∷ 61 ∷ 49 ∷ soh ∷ 51 ∷ [])
    ∷ []

receive_all-parse_fix_messages_example :
    receive_all atoi [] chunks ≡ parse_fix_messages atoi (joined chunks)
receive_all-parse_fix_messages_example =
    receive_all-parse_fix_messages atoi [] chunks split_message-nil

abbrev client : FixSession
client = record {
  session_id = 100;
  sender_comp_id = [];
  msg_seq_num = 1;
  logged_on = false;
  connected = true;
  receiving = true;
}

abbrev logged_on : FixSession
logged_on = record client { session_id = 101; msg_seq_num = 4; logged_on = true }

abbrev acceptor : FixAcceptor
acceptor = record {
  sessions = (100, client) ∷ (101, logged_on) ∷ [];
  next_session_id = 102;
  running = true;
}

abbrev filled_report : ExecReportEvent
filled_report = record {
  report = record {
    order_id = 2;
    cl_ord_id = 7;
    status = filled;
    filled_qty = 9;
    remaining_qty = 0;
    last_price = pos 105;
    last_qty = 9;
    trade_id = 1;
  };
  session_id = 101;
}

-- An order and a heartbeat of one session, a report between them, and the logon of another one.
abbrev steps : List Step
steps =
    message 101 ((35, 68 ∷ []) ∷ (11, 55 ∷ []) ∷ [])
    ∷ report filled_report
    ∷ message 100 ((35, 65 ∷ []) ∷ (49, 77 ∷ 69 ∷ []) ∷ [])
    ∷ message 101 ((35, 48 ∷ []) ∷ [])
    ∷ []

run-InOrder_example : InOrder decimal 101 4 (run decimal steps acceptor)
run-InOrder_example =
    run-InOrder decimal steps 101 logged_on acceptor refl (refl, (refl, tt)) (omega arith)
