-- ===== src/Smtp/Protocol.antt =====
-- `on_connect`, `on_data`, `process_command` and `process_data_line` of smtp/src/smtp_session.cpp:
-- what a session does with each line that it reads.
use email_server.Base.{
  ◌+◌, Bool, true, false, List, [], ◌∷◌, ◌++◌, ltb, ◌==◌, if◌then◌else◌, is_empty, length,
}
use email_server.Net
use email_server.Smtp.Command
use email_server.Smtp.Command.{Command, CommandType}
use email_server.Smtp.Delivery.{deliver_message}
use email_server.Smtp.Handlers.{execute}
use email_server.Smtp.Host.{Host, Relay}
use email_server.Smtp.Login.{process_auth_response}
use email_server.Smtp.Reply.{make, service_ready, okay, local_error, syntax_error, exceeded_storage}
use email_server.Smtp.{
  SmtpSession, SessionState, AuthState, greeted, in_data, plain_waiting, login_waiting_username,
  login_waiting_password, clear, send_line,
}
use email_server.Text.{Text, codes, crlf, text_eq}

unfoldable pub on_connect : SmtpSession → SmtpSession
on_connect s = send_line (make service_ready (s.hostname ++ codes " ESMTP ready")) s

abbrev is_unknown : CommandType → Bool
is_unknown CommandType.unknown = true
is_unknown _ = false

abbrev is_quit : CommandType → Bool
is_quit CommandType.quit = true
is_quit _ = false

unfoldable pub stop : SmtpSession → SmtpSession
stop s = record s { base = Net.stop s.base }

-- `if (!response.empty()) send_line(response);`
unfoldable pub respond : SmtpSession × Text → SmtpSession
respond (s, response) = if is_empty response then s else send_line response s

unfoldable pub process_command : Host → Text → SmtpSession → SmtpSession
unfolding respond stop
process_command h line s =
    let cmd = Command.parse line in
    let answered = respond (execute h cmd.type cmd s) in
    if is_unknown cmd.type
    then send_line (make syntax_error (codes "Unrecognized command")) s
    else if is_quit cmd.type
    then stop answered
    else answered

-- The end of a message, taken or refused.
unfoldable pub finish_data : Text → SmtpSession → SmtpSession
finish_data reply s =
    let told = send_line reply s in
    record told { envelope = clear; state = greeted; data_buffer = [] }

-- Without the dot in front, where there is one.
unfoldable pub unstuff : Text → Text
unstuff [] = []
unstuff (c ∷ s) = if c == b'.' then s else c ∷ s

unfoldable pub is_end_of_data : Text → Bool
unfolding text_eq
is_end_of_data line = text_eq line (b'.' ∷ [])

-- A line of the message that does not end it.
unfoldable pub append_line : Text → SmtpSession → SmtpSession
append_line content s =
    if ltb s.max_message_size (length s.data_buffer + length content + 2)
    then finish_data (make exceeded_storage (codes "Message too large")) s
    else record s { data_buffer = s.data_buffer ++ (content ++ crlf) }

abbrev pub is_receiving : SessionState → Bool
is_receiving in_data = true
is_receiving _ = false

abbrev pub is_waiting : AuthState → Bool
is_waiting plain_waiting = true
is_waiting login_waiting_username = true
is_waiting login_waiting_password = true
is_waiting _ = false

module _ {W : Type 0} (h : Host) (r : Relay W) where
  -- At the line with a single dot.
  unfoldable pub end_data : SmtpSession → W → W × SmtpSession
  unfolding finish_data
  end_data s w =
      let (w', delivered_s, delivered) = deliver_message h r s w in
      let reply =
        if delivered
        then make okay (codes "Message accepted for delivery")
        else make local_error (codes "Delivery failed") in
      (w', finish_data reply delivered_s)

  unfoldable pub process_data_line : Text → SmtpSession → W → W × SmtpSession
  unfolding end_data unstuff append_line is_end_of_data
  process_data_line line s w =
      if is_end_of_data line then end_data s w else (w, append_line (unstuff line) s)

  unfoldable pub on_data : Text → SmtpSession → W → W × SmtpSession
  unfolding process_data_line process_command
  on_data line s w =
      if is_receiving s.state
      then process_data_line line s w
      else if is_waiting s.auth_state
      then (w, process_auth_response h line s)
      else (w, process_command h line s)

  -- `Session::handle_read`, once a line is taken from the buffer: a stopped session reads no more.
  unfoldable pub handle_read : Text → SmtpSession → W → W × SmtpSession
  unfolding on_data
  handle_read line s w = if s.stopped then (w, s) else on_data line s w

  -- The lines that a client sends, one after the other.
  unfoldable pub run_lines : List Text → SmtpSession → W → W × SmtpSession
  run_lines [] s w = (w, s)
  run_lines (line ∷ rest) s w = let (w', s') = handle_read line s w in run_lines rest s' w'
