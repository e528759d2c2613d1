-- ===== src/Smtp/Farewell.antt =====
-- The replies to QUIT and STARTTLS on their way to the client.
use email_server.Base.{◌≡◌, refl, List, ◌++◌}
use email_server.Net
use email_server.Net.Events.{Event, run}
use email_server.Net.Stopped.{stop-send_line}
use email_server.Smtp.Command
use email_server.Smtp.Command.{Command, CommandType}
use email_server.Smtp.Handlers.{execute, handle_quit}
use email_server.Smtp.Host.{Host}
use email_server.Smtp.Protocol.{process_command, respond, stop}
use email_server.Smtp.Reply.{make, is_empty-make, service_closing}
use email_server.Smtp.{SmtpSession, send_line}
use email_server.Text.{Text, codes}

process_quit :
    (h : Host) (line : Text) (s : SmtpSession)
    → (Command.parse line).type ≡ CommandType.quit
    → (process_command h line s).base
      ≡ Net.stop
          (Net.send_line (make service_closing (s.hostname ++ codes " closing connection")) s.base)
unfolding process_command execute handle_quit respond send_line stop
process_quit h line s e =
    rw (e, process_command, execute)
      (rw (is_empty-make service_closing (s.hostname ++ codes " closing connection"), respond) refl)

-- Where no other thread of the server runs while the line is handled, as with one thread, the reply to
-- QUIT is never written to the client's socket: the session is stopped before the lambda that holds
-- the reply runs.
pub process_command-quit :
    (h : Host) (line : Text) (s : SmtpSession) (es : List Event)
    → (Command.parse line).type ≡ CommandType.quit
    → (run (process_command h line s).base es).wire ≡ s.wire
process_command-quit h line s es e =
    rw (process_quit h line s e)
      (stop-send_line (make service_closing (s.hostname ++ codes " closing connection")) s.base es)
