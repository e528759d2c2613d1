-- ===== src/Smtp/Handlers.antt =====
-- The handlers of smtp/src/smtp_commands.cpp, with `CommandHandler::execute` and
-- `SMTPSession::is_local_domain`. A handler returns the session and the text of its reply; an empty
-- text means that the reply has been sent already. The build has TLS.
use email_server.Base.{
  Bool, true, false, not, ◌&&◌, ◌||◌, List, [], ◌∷◌, ◌++◌, Option, none, some, leb, if◌then◌else◌,
  is_empty, length,
}
use email_server.Net
use email_server.Smtp.Address
use email_server.Smtp.Address.{EmailAddress}
use email_server.Smtp.Command.{Command, CommandType}
use email_server.Smtp.Host.{Host}
use email_server.Smtp.Login.{handle_auth}
use email_server.Smtp.Reply.{
  make, make_multi, service_ready, service_closing, help_message, okay, cannot_vrfy,
  start_mail_input, local_error, syntax_error_params, command_not_implemented, bad_sequence,
  auth_required, mailbox_not_found, exceeded_storage,
}
use email_server.Smtp.{
  SmtpSession, SessionState, connected, greeted, mail, rcpt, in_data, quit, clear, send_line,
  starttls_available, set_state,
}
use email_server.Text.Numbers.{to_string}
use email_server.Text.{Text, codes, text_eq}

-- The tests of `handle_mail`, `handle_rcpt` and `handle_data` on the state.
abbrev pub may_mail : SessionState → Bool
may_mail greeted = true
may_mail mail = true
may_mail rcpt = true
may_mail _ = false

abbrev pub may_rcpt : SessionState → Bool
may_rcpt mail = true
may_rcpt rcpt = true
may_rcpt _ = false

abbrev pub may_data : SessionState → Bool
may_data rcpt = true
may_data _ = false

-- The state after RSET.
abbrev pub after_rset : SessionState → SessionState
after_rset connected = connected
after_rset _ = greeted

unfoldable pub listed : Text → List Text → Bool
listed domain [] = false
listed domain (local ∷ rest) = text_eq local domain || listed domain rest

-- A greeting that names its host starts a new exchange.
unfoldable pub greet : Text → SmtpSession → SmtpSession
greet name s = record s { client_hostname = name; state = greeted; envelope = clear }

unfoldable pub handle_helo : Command → SmtpSession → SmtpSession × Text
handle_helo cmd s =
    if is_empty cmd.argument
    then (s, make syntax_error_params (codes "Hostname required"))
    else (greet cmd.argument s, make okay (s.hostname ++ (codes " Hello " ++ cmd.argument)))

-- The lines that follow the greeting of EHLO.
unfoldable pub capabilities : SmtpSession → List Text
capabilities s =
    (codes "SIZE " ++ to_string s.max_message_size)
    ∷ codes "8BITMIME"
    ∷ codes "PIPELINING"
    ∷ ((if starttls_available s then codes "STARTTLS" ∷ [] else [])
        ++ (if s.authenticated then [] else codes "AUTH PLAIN LOGIN" ∷ []))

unfoldable pub handle_ehlo : Command → SmtpSession → SmtpSession × Text
unfolding capabilities
handle_ehlo cmd s =
    let greeting = s.hostname ++ (codes " Hello " ++ cmd.argument) in
    if is_empty cmd.argument
    then (s, make syntax_error_params (codes "Hostname required"))
    else (greet cmd.argument s, make_multi okay (greeting ∷ capabilities s))

-- `handle_mail` once the sender is parsed.
unfoldable pub accept_sender : Option EmailAddress → SmtpSession → SmtpSession × Text
accept_sender none s = (s, make syntax_error_params (codes "Invalid sender address"))
accept_sender (some addr) s =
    let envelope = record clear { mail_from = addr.full_address } in
    (record s { envelope = envelope; state = mail }, make okay (codes "OK"))

unfoldable pub handle_mail : Command → SmtpSession → SmtpSession × Text
unfolding accept_sender
handle_mail cmd s =
    if not (may_mail s.state)
    then (s, make bad_sequence (codes "Send HELO/EHLO first"))
    else if s.require_auth && not s.authenticated
    then (s, make auth_required (codes "Authentication required"))
    else accept_sender (Address.parse cmd.argument) s

-- `envelope().rcpt_to.push_back`.
unfoldable pub add_recipient : Text → SmtpSession → SmtpSession
add_recipient address s =
    let envelope = record (s.envelope) { rcpt_to = s.envelope.rcpt_to ++ address ∷ [] } in
    record s { envelope = envelope; state = rcpt }

module _ (h : Host) where
  -- `SMTPSession::is_local_domain`.
  unfoldable pub is_local_domain : SmtpSession → Text → Bool
  is_local_domain s domain = listed domain s.local_domains || h.is_local_domain domain

  -- `handle_rcpt` once the recipient is parsed.
  unfoldable pub accept_recipient : Option EmailAddress → SmtpSession → SmtpSession × Text
  accept_recipient none s = (s, make syntax_error_params (codes "Invalid recipient address"))
  accept_recipient (some addr) s =
      let is_local = is_local_domain s addr.domain in
      if is_empty addr.domain
      then (s, make syntax_error_params (codes "Invalid recipient address"))
      else if not is_local && not s.allow_relay && not s.authenticated
      then (s, make auth_required (codes "Relay access denied"))
      else if is_local && not (h.has_user addr.full_address)
      then (s, make mailbox_not_found (codes "User not found"))
      else (add_recipient addr.full_address s, make okay (codes "OK"))

  unfoldable pub handle_rcpt : Command → SmtpSession → SmtpSession × Text
  unfolding accept_recipient
  handle_rcpt cmd s =
      if not (may_rcpt s.state)
      then (s, make bad_sequence (codes "Send MAIL FROM first"))
      else if leb s.max_recipients (length s.envelope.rcpt_to)
      then (s, make exceeded_storage (codes "Too many recipients"))
      else accept_recipient (Address.parse cmd.argument) s

  -- `handle_vrfy` once the address is parsed.
  unfoldable pub verify : Option EmailAddress → SmtpSession → SmtpSession × Text
  verify none s = (s, make syntax_error_params (codes "Invalid address"))
  verify (some addr) s =
      if is_local_domain s addr.domain && h.has_user addr.full_address
      then (s, make okay addr.full_address)
      else (s, make cannot_vrfy (codes "Cannot verify user"))

  unfoldable pub handle_vrfy : Command → SmtpSession → SmtpSession × Text
  unfolding verify
  handle_vrfy cmd s =
      if is_empty cmd.argument
      then (s, make syntax_error_params (codes "Address required"))
      else verify (Address.parse cmd.argument) s

unfoldable pub handle_data : SmtpSession → SmtpSession × Text
handle_data s =
    if not (may_data s.state)
    then (s, make bad_sequence (codes "Send RCPT TO first"))
    else if is_empty s.envelope.rcpt_to
    then (s, make bad_sequence (codes "No recipients"))
    else (
      set_state in_data s,
      make start_mail_input (codes "Start mail input; end with <CRLF>.<CRLF>"),
    )

unfoldable pub handle_rset : SmtpSession → SmtpSession × Text
handle_rset s = (record s { envelope = clear; state = after_rset s.state }, make okay (codes "OK"))

unfoldable pub handle_noop : SmtpSession → SmtpSession × Text
handle_noop s = (s, make okay (codes "OK"))

unfoldable pub handle_quit : SmtpSession → SmtpSession × Text
handle_quit s = (set_state quit s, make service_closing (s.hostname ++ codes " closing connection"))

-- The reply is sent, TLS is started, and the exchange begins anew.
unfoldable pub upgrade : SmtpSession → SmtpSession
upgrade s =
    let told = send_line (make service_ready (codes "Ready to start TLS")) s in
    record told { base = Net.start_tls told.base; state = connected; envelope = clear }

unfoldable pub handle_starttls : SmtpSession → SmtpSession × Text
handle_starttls s =
    if s.is_tls
    then (s, make bad_sequence (codes "Already using TLS"))
    else if not (starttls_available s)
    then (s, make command_not_implemented (codes "STARTTLS not available"))
    else if not s.has_ssl_context
    then (s, make local_error (codes "TLS not configured"))
    else (upgrade s, [])

unfoldable pub handle_help : SmtpSession → SmtpSession × Text
handle_help s =
    let first = s.hostname ++ codes " supports:" in
    let second = codes "HELO EHLO MAIL RCPT DATA RSET NOOP QUIT VRFY AUTH STARTTLS HELP" in
    (s, make_multi help_message (first ∷ second ∷ []))

-- The table that `CommandHandler::CommandHandler` fills.
unfoldable pub execute : Host → CommandType → Command → SmtpSession → SmtpSession × Text
execute h CommandType.helo cmd s = handle_helo cmd s
execute h CommandType.ehlo cmd s = handle_ehlo cmd s
execute h CommandType.mail cmd s = handle_mail cmd s
execute h CommandType.rcpt cmd s = handle_rcpt h cmd s
execute h CommandType.data_command cmd s = handle_data s
execute h CommandType.rset cmd s = handle_rset s
execute h CommandType.noop cmd s = handle_noop s
execute h CommandType.quit cmd s = handle_quit s
execute h CommandType.vrfy cmd s = handle_vrfy h cmd s
execute h CommandType.auth cmd s = handle_auth h cmd s
execute h CommandType.starttls cmd s = handle_starttls s
execute h CommandType.help cmd s = handle_help s
execute h CommandType.unknown cmd s =
    (s, make command_not_implemented (codes "Command not implemented"))
