-- ===== src/Smtp/Invariant.antt =====
-- The invariant of a session between two lines, command by command.
pub mod Lines
use email_server.Base.{
  ℕ, suc, ◌+◌, ◌≤◌, ◌≡◌, ◌≢◌, refl, sym, ◌∙◌, Bool, true, false, inl, inr, List, [], ◌∷◌, ◌++◌,
  Option, none, some, arith, leb, length, length-append, Bool-cases, Option-cases,
}
use email_server.Net
use email_server.Smtp.Address.{EmailAddress}
use email_server.Smtp.Address
use email_server.Smtp.Command.{Command, CommandType}
use email_server.Smtp.Command
use email_server.Smtp.Delivery.{deliver_message}
use email_server.Smtp.Handlers.{
  may_mail, may_rcpt, may_data, handle_helo, handle_ehlo, accept_sender, handle_mail, greet,
  accept_recipient, handle_rcpt, verify, handle_vrfy, handle_data, handle_rset, handle_noop,
  handle_quit, upgrade, handle_starttls, handle_help, add_recipient, execute,
}
use email_server.Smtp.Host.{Host, Relay}
use email_server.Smtp.Login.{
  log_in, handle_auth, auth_plain, conclude, plain_response, auth_response, process_auth_response,
  plain_credentials,
}
use email_server.Smtp.Protocol.{
  is_receiving, respond, stop, process_command, finish_data, append_line, unstuff, end_data,
  process_data_line, on_data, handle_read, run_lines,
}
use email_server.Smtp.{
  SmtpSession, SessionState, AuthState, Envelope, connected, greeted, mail, rcpt, in_data, quit,
  idle, plain_waiting, login_waiting_username, login_waiting_password, authenticated_state,
  send_line, open_session, set_auth_state,
}
use email_server.Smtp.Reply.{make, syntax_error}
use email_server.Text.Stream.{next_word}
use email_server.Text.{Text, codes}

-- Whether a mail transaction is open.
abbrev pub in_transaction : SessionState → Bool
in_transaction mail = true
in_transaction rcpt = true
in_transaction in_data = true
in_transaction _ = false

abbrev pub has_recipients : SessionState → Bool
has_recipients rcpt = true
has_recipients in_data = true
has_recipients _ = false

abbrev pub is_logged_in : AuthState → Bool
is_logged_in authenticated_state = true
is_logged_in _ = false

-- The state of the exchange and the flag of the connection agree on the login; a transaction is
-- open only for a client who may have one; recipients are there where the state says so, and no
-- more than allowed; the buffer is within its limit, and empty outside of a message.
pub record IsConsistent (s : SmtpSession) : Type 0 where
  pub logged_in : is_logged_in s.auth_state ≡ s.authenticated
  pub admitted : in_transaction s.state ≡ true → s.require_auth ≡ true → s.authenticated ≡ true
  pub addressed : has_recipients s.state ≡ true → s.envelope.rcpt_to ≢ []
  pub few : length s.envelope.rcpt_to ≤ s.max_recipients
  pub small : length s.data_buffer ≤ s.max_message_size
  pub unused : is_receiving s.state ≡ false → s.data_buffer ≡ []

-- `send_line`, and whatever else changes the connection but not the login, keeps the invariant.
pub send_line-IsConsistent :
    (line : Text) (s : SmtpSession) → IsConsistent s → IsConsistent (send_line line s)
unfolding send_line Net.send_line
send_line-IsConsistent line s v = record {
  logged_in = v.logged_in;
  admitted = v.admitted;
  addressed = v.addressed;
  few = v.few;
  small = v.small;
  unused = v.unused;
}

greet-IsConsistent :
    (name : Text) (s : SmtpSession)
    → is_receiving s.state ≡ false
    → IsConsistent s
    → IsConsistent (greet name s)
unfolding greet
greet-IsConsistent name s q v = ground arith

helo-IsConsistent :
    (cmd : Command) (s : SmtpSession)
    → is_receiving s.state ≡ false
    → IsConsistent s
    → IsConsistent (handle_helo cmd s).0
unfolding handle_helo
helo-IsConsistent cmd s q v = ground (arith, greet-IsConsistent cmd.argument s q v)

ehlo-IsConsistent :
    (cmd : Command) (s : SmtpSession)
    → is_receiving s.state ≡ false
    → IsConsistent s
    → IsConsistent (handle_ehlo cmd s).0
unfolding handle_ehlo
ehlo-IsConsistent cmd s q v = ground (arith, greet-IsConsistent cmd.argument s q v)

add_recipient-IsConsistent :
    (address : Text) (s : SmtpSession)
    → may_rcpt s.state ≡ true
    → leb s.max_recipients (length s.envelope.rcpt_to) ≡ false
    → IsConsistent s
    → IsConsistent (add_recipient address s)
unfolding add_recipient
add_recipient-IsConsistent address s q b v =
    ground (arith, length-append s.envelope.rcpt_to (address ∷ []))

accept_recipient-IsConsistent :
    (h : Host) (a : Option EmailAddress) (s : SmtpSession)
    → may_rcpt s.state ≡ true
    → leb s.max_recipients (length s.envelope.rcpt_to) ≡ false
    → IsConsistent s
    → IsConsistent (accept_recipient h a s).0
unfolding accept_recipient
accept_recipient-IsConsistent h none s q b v = v
accept_recipient-IsConsistent h (some a) s q b v =
    ground (arith, add_recipient-IsConsistent a.full_address s q b v)

rcpt-IsConsistent :
    (h : Host) (cmd : Command) (s : SmtpSession)
    → IsConsistent s
    → IsConsistent (handle_rcpt h cmd s).0
unfolding handle_rcpt
rcpt-IsConsistent h cmd s v =
    ground (arith, accept_recipient-IsConsistent h (Address.parse cmd.argument) s)

accept_sender-IsConsistent :
    (a : Option EmailAddress) (s : SmtpSession)
    → is_receiving s.state ≡ false
    → (s.require_auth ≡ true → s.authenticated ≡ true)
    → IsConsistent s
    → IsConsistent (accept_sender a s).0
unfolding accept_sender
accept_sender-IsConsistent none s q p v = v
accept_sender-IsConsistent (some a) s q p v = ground arith

mail-IsConsistent :
    (cmd : Command) (s : SmtpSession)
    → is_receiving s.state ≡ false
    → IsConsistent s
    → IsConsistent (handle_mail cmd s).0
unfolding handle_mail
mail-IsConsistent cmd s q v =
    ground (arith, accept_sender-IsConsistent (Address.parse cmd.argument) s q)

verify-same : (h : Host) (a : Option EmailAddress) (s : SmtpSession) → (verify h a s).0 ≡ s
unfolding verify
verify-same h none s = refl
verify-same h (some a) s = ground arith

vrfy-same : (h : Host) (cmd : Command) (s : SmtpSession) → (handle_vrfy h cmd s).0 ≡ s
unfolding handle_vrfy
vrfy-same h cmd s = ground (arith, verify-same h (Address.parse cmd.argument) s)

data-IsConsistent : (s : SmtpSession) → IsConsistent s → IsConsistent (handle_data s).0
unfolding handle_data
data-IsConsistent s v = ground arith

rset-IsConsistent :
    (s : SmtpSession)
    → is_receiving s.state ≡ false
    → IsConsistent s
    → IsConsistent (handle_rset s).0
unfolding handle_rset
rset-IsConsistent s q v = ground arith

quit-IsConsistent :
    (s : SmtpSession)
    → is_receiving s.state ≡ false
    → IsConsistent s
    → IsConsistent (handle_quit s).0
unfolding handle_quit
quit-IsConsistent s q v = ground arith

upgrade-IsConsistent :
    (s : SmtpSession) → is_receiving s.state ≡ false → IsConsistent s → IsConsistent (upgrade s)
unfolding upgrade send_line Net.send_line Net.start_tls
upgrade-IsConsistent s q v = ground arith

starttls-IsConsistent :
    (s : SmtpSession)
    → is_receiving s.state ≡ false
    → IsConsistent s
    → IsConsistent (handle_starttls s).0
unfolding handle_starttls
starttls-IsConsistent s q v = ground (arith, upgrade-IsConsistent s q v)

pub log_in-IsConsistent :
    (username : Text) (s : SmtpSession) → IsConsistent s → IsConsistent (log_in username s)
unfolding log_in
log_in-IsConsistent username s v = ground arith

-- Any other state of the exchange goes with a client who is not logged in.
pub waiting-IsConsistent :
    (a : AuthState) (s : SmtpSession)
    → is_logged_in a ≡ false
    → s.authenticated ≡ false
    → IsConsistent s
    → IsConsistent (set_auth_state a s)
waiting-IsConsistent a s p q v = ground arith

auth_plain-IsConsistent :
    (h : Host) (c : Option (Text × Text)) (s : SmtpSession)
    → IsConsistent s
    → IsConsistent (auth_plain h c s).0
unfolding auth_plain
auth_plain-IsConsistent h none s v = v
auth_plain-IsConsistent h (some (username, password)) s v =
    ground (arith, log_in-IsConsistent username s v)

auth-IsConsistent :
    (h : Host) (cmd : Command) (s : SmtpSession)
    → IsConsistent s
    → IsConsistent (handle_auth h cmd s).0
unfolding handle_auth
auth-IsConsistent h cmd s v = ground (
  arith,
  auth_plain-IsConsistent h
      (plain_credentials (h.base64_decode (next_word (next_word cmd.argument).1).0)) s v,
  waiting-IsConsistent plain_waiting s refl,
  waiting-IsConsistent login_waiting_username s refl,
)

execute-IsConsistent :
    (h : Host) (t : CommandType) (cmd : Command) (s : SmtpSession)
    → is_receiving s.state ≡ false
    → IsConsistent s
    → IsConsistent (execute h t cmd s).0
unfolding execute handle_noop handle_help
execute-IsConsistent h CommandType.helo cmd s q v = helo-IsConsistent cmd s q v
execute-IsConsistent h CommandType.ehlo cmd s q v = ehlo-IsConsistent cmd s q v
execute-IsConsistent h CommandType.mail cmd s q v = mail-IsConsistent cmd s q v
execute-IsConsistent h CommandType.rcpt cmd s q v = rcpt-IsConsistent h cmd s v
execute-IsConsistent h CommandType.data_command cmd s q v = data-IsConsistent s v
execute-IsConsistent h CommandType.rset cmd s q v = rset-IsConsistent s q v
execute-IsConsistent h CommandType.quit cmd s q v = quit-IsConsistent s q v
execute-IsConsistent h CommandType.vrfy cmd s q v = rw vrfy-same v
execute-IsConsistent h CommandType.auth cmd s q v = auth-IsConsistent h cmd s v
execute-IsConsistent h CommandType.starttls cmd s q v = starttls-IsConsistent s q v
execute-IsConsistent h _ cmd s q v = v

respond-IsConsistent : (r : SmtpSession × Text) → IsConsistent r.0 → IsConsistent (respond r)
unfolding respond
respond-IsConsistent (s, text) v = ground (arith, send_line-IsConsistent text s v)

stop-IsConsistent : (s : SmtpSession) → IsConsistent s → IsConsistent (stop s)
unfolding stop Net.stop
stop-IsConsistent s v = ground arith

pub command-IsConsistent :
    (h : Host) (line : Text) (s : SmtpSession)
    → is_receiving s.state ≡ false
    → IsConsistent s
    → IsConsistent (process_command h line s)
unfolding process_command
command-IsConsistent h line s q v =
    let cmd = Command.parse line in
    let done =
      respond-IsConsistent (execute h cmd.type cmd s) (execute-IsConsistent h cmd.type cmd s q v) in
    ground (
      arith,
      done,
      stop-IsConsistent (respond (execute h cmd.type cmd s)) done,
      send_line-IsConsistent (make syntax_error (codes "Unrecognized command")) s v,
    )
