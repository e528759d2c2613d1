-- ===== src/Smtp/Tests.antt =====
-- The properties of an SMTP session at concrete sessions.
use email_server.Base.{◌≡◌, refl, true, false, ◌&&◌, List, [], ◌∷◌, ◌++◌, map, arith}
use email_server.Net.Events.{runs, completes, run}
use email_server.Smtp.Farewell.{process_command-quit}
use email_server.Smtp.Host.{Host, Relay}
use email_server.Smtp.Invariant.{IsConsistent}
use email_server.Smtp.Invariant.Lines.{run_lines-IsConsistent, open_session-IsConsistent}
use email_server.Smtp.Logins.{Change}
use email_server.Smtp.Logins.Lines.{run_lines-Change}
use email_server.Smtp.Message.{
  dot, buffered, given_up, run_lines-message, run_lines-message_lines, run_lines-overflow,
}
use email_server.Smtp.Protocol.{run_lines, process_command, end_data, is_end_of_data, unstuff}
use email_server.Smtp.Command
use email_server.Smtp.Relay.{stuff, message_lines}
use email_server.Smtp.Strangers.{run_lines-world, run_lines-agree}
use email_server.Smtp.{SmtpSession, open_session, in_data}
use email_server.Text.Laws.{join}
use email_server.Text.{Text, codes, text_eq, to_upper}

-- Nobody is known.
abbrev refusing : Host
refusing = record {
  auth = record {
    authenticate = λ username password. false;
    has_user = λ username. false;
    is_local_domain = λ domain. false;
  };
  base64_decode = λ text. text;
  base64_encode = λ text. text;
  remote_address = [];
}

-- One user, whose password is "b".
abbrev knowing : Host
knowing = record refusing {
  auth = record {
    authenticate =
        λ username password. text_eq username (codes "a@c") && text_eq password (codes "b");
    has_user = λ username. text_eq username (codes "a@c");
    is_local_domain = λ domain. text_eq domain (codes "c");
  };
}

-- The world is the list of the messages that were delivered.
abbrev keeping : Relay (List Text)
keeping = record {
  deliver_local = λ w domain user message. (message ∷ w, true);
  deliver_remote = λ w recipient sender message. (w, false);
  timestamp = λ w. codes "now";
}

abbrev losing : Relay (List Text)
losing = record keeping { deliver_remote = λ w recipient sender message. ([], true) }

abbrev opened : SmtpSession
opened = open_session false (codes "c") (codes "c" ∷ [])

abbrev receiving : SmtpSession
receiving = record opened { state = in_data }

abbrev session_lines : List Text
session_lines =
    codes "EHLO x"
    ∷ codes "AUTH LOGIN"
    ∷ codes "a@c"
    ∷ codes "b"
    ∷ codes "MAIL FROM:<a@c>"
    ∷ codes "RCPT TO:<a@c>"
    ∷ codes "DATA"
    ∷ codes "..hi"
    ∷ codes "."
    ∷ []

run_lines-IsConsistent_example : IsConsistent (run_lines knowing keeping session_lines opened []).1
run_lines-IsConsistent_example =
    run_lines-IsConsistent knowing keeping session_lines opened []
      (open_session-IsConsistent false (codes "c") (codes "c" ∷ []))

run_lines-Change_example :
    Change knowing opened (run_lines knowing keeping session_lines opened []).1
run_lines-Change_example = run_lines-Change knowing keeping session_lines opened []

run_lines-world_example : (run_lines refusing keeping session_lines opened (dot ∷ [])).0 ≡ dot ∷ []
unfolding open_session
run_lines-world_example =
    run_lines-world refusing keeping session_lines opened (dot ∷ []) (λ username password. refl)
      refl refl (open_session-IsConsistent false (codes "c") (codes "c" ∷ []))

run_lines-agree_example :
    run_lines refusing losing session_lines opened (dot ∷ [])
    ≡ run_lines refusing keeping session_lines opened (dot ∷ [])
unfolding open_session
run_lines-agree_example =
    run_lines-agree refusing keeping losing
      (record { local = λ w domain user message. refl; clock = λ w. refl }) session_lines opened
      (dot ∷ []) (λ username password. refl) refl refl

abbrev two_lines : List Text
two_lines = (b'.' ∷ b'a' ∷ []) ∷ (b'b' ∷ []) ∷ []

run_lines-message_example :
    run_lines refusing keeping (map stuff two_lines ++ dot ∷ []) receiving []
    ≡ end_data refusing keeping (buffered (join two_lines) receiving) []
unfolding open_session
run_lines-message_example =
    run_lines-message refusing keeping two_lines receiving [] refl refl (omega arith)

run_lines-message_lines_example :
    run_lines refusing keeping (message_lines (join two_lines) ++ dot ∷ []) receiving []
    ≡ end_data refusing keeping (buffered (join two_lines) receiving) []
unfolding open_session
run_lines-message_lines_example =
    run_lines-message_lines refusing keeping two_lines receiving [] (ground arith) refl refl
      (omega arith)

-- No message of more than four bytes fits.
abbrev narrow : SmtpSession
narrow = record receiving { max_message_size = 4 }

run_lines-overflow_example :
    run_lines refusing keeping (codes "abc" ∷ codes "NOOP" ∷ []) narrow []
    ≡ ([], process_command refusing (codes "NOOP") (given_up narrow))
unfolding open_session codes is_end_of_data unstuff
run_lines-overflow_example =
    run_lines-overflow refusing keeping (codes "abc") (codes "NOOP") narrow [] refl refl refl refl
      (omega arith)

process_command-quit_example :
    (run (process_command refusing (codes "QUIT") opened).base (runs 0 ∷ completes false ∷ [])).wire
    ≡ opened.wire
unfolding codes Command.parse text_eq to_upper
process_command-quit_example =
    process_command-quit refusing (codes "QUIT") opened (runs 0 ∷ completes false ∷ []) refl

abbrev with_tls : SmtpSession
with_tls = record opened { has_ssl_context = true }
