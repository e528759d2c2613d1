-- ===== src/Smtp/Logins.antt =====
-- The settings and the login of a session, command by command.
pub mod Lines
use email_server.Auth.{parse_email}
use email_server.Base.{
  ◌≡◌, ◌≢◌, refl, ◌∙◌, true, ◌⊎◌, inl, inr, if-both, if-each, is_empty, List, [], ◌∷◌, Option, none,
  some, arith, Bool-cases,
}
use email_server.Net
use email_server.Smtp.Command
use email_server.Smtp.Command.{Command, CommandType}
use email_server.Smtp.Delivery.{deliver_message}
use email_server.Smtp.Handlers.{
  handle_helo, handle_ehlo, accept_sender, handle_mail, greet, accept_recipient, handle_rcpt,
  handle_vrfy, verify, handle_data, handle_rset, handle_noop, handle_quit, upgrade, handle_starttls,
  handle_help, add_recipient, execute,
}
use email_server.Smtp.Host.{Host, Relay}
use email_server.Smtp.Login.{
  is_connected, log_in, handle_auth, auth_plain, conclude, plain_response, auth_response,
  process_auth_response, plain_credentials,
}
use email_server.Smtp.Protocol.{
  is_receiving, is_waiting, respond, stop, process_command, finish_data, append_line, unstuff,
  end_data, process_data_line, on_data, handle_read, run_lines,
}
use email_server.Smtp.Reply.{make, exceeded_storage}
use email_server.Smtp.{
  SmtpSession, AuthState, idle, plain_waiting, login_waiting_username, login_waiting_password,
  send_line, set_auth_state,
}
use email_server.Text.Stream.{next_word}
use email_server.Text.{Text, codes, text_eq, upper}

-- The settings of a session: what its server has set before the first line.
pub record SameSettings (s t : SmtpSession) : Type 0 where
  pub relay : t.allow_relay ≡ s.allow_relay
  pub auth : t.require_auth ≡ s.require_auth
  pub recipients : t.max_recipients ≡ s.max_recipients
  pub size : t.max_message_size ≡ s.max_message_size
  pub domains : t.local_domains ≡ s.local_domains
  pub host : t.hostname ≡ s.hostname
  pub offered : t.starttls_offered ≡ s.starttls_offered
  pub context : t.has_ssl_context ≡ s.has_ssl_context

pub record SameLogin (s t : SmtpSession) : Type 0 where
  pub authenticated : t.authenticated ≡ s.authenticated
  pub username : t.username ≡ s.username
  pub domain : t.domain ≡ s.domain

-- The authenticator has accepted a name and a password, and the session is his of that name.
pub record Proven (h : Host) (t : SmtpSession) : Type 0 where
  pub user : Text
  pub password : Text
  pub accepted : h.authenticate user password ≡ true
  pub authenticated : t.authenticated ≡ true
  pub username : t.username ≡ (parse_email user).0
  pub domain : t.domain ≡ (parse_email user).1

pub record Change (h : Host) (s t : SmtpSession) : Type 0 where
  pub settings : SameSettings s t
  pub login : SameLogin s t ⊎ Proven h t

-- Settings and login as they were.
pub record Kept (s t : SmtpSession) : Type 0 where
  pub settings : SameSettings s t
  pub login : SameLogin s t

pub Kept-refl : (s : SmtpSession) → Kept s s
Kept-refl s = ground arith

pub Kept-trans : (s t u : SmtpSession) → Kept s t → Kept t u → Kept s u
Kept-trans s t u p q = ground arith

pub Kept-Change : (h : Host) (s t : SmtpSession) → Kept s t → Change h s t
Kept-Change h s t k = record { settings = k.settings; login = inl k.login }

trans-settings : (s t u : SmtpSession) → SameSettings s t → SameSettings t u → SameSettings s u
trans-settings s t u p q = ground arith

Proven-same : (h : Host) (s t : SmtpSession) → Proven h s → SameLogin s t → Proven h t
Proven-same h s t p q = record {
  user = p.user;
  password = p.password;
  accepted = p.accepted;
  authenticated = q.authenticated ∙ p.authenticated;
  username = q.username ∙ p.username;
  domain = q.domain ∙ p.domain;
}

trans-login :
    (h : Host) (s t u : SmtpSession)
    → SameLogin s t ⊎ Proven h t
    → SameLogin t u ⊎ Proven h u
    → SameLogin s u ⊎ Proven h u
trans-login h s t u p (inr new) = inr new
trans-login h s t u (inl same) (inl kept) = inl (ground arith)
trans-login h s t u (inr old) (inl kept) = inr (Proven-same h t u old kept)

pub Change-trans : (h : Host) (s t u : SmtpSession) → Change h s t → Change h t u → Change h s u
Change-trans h s t u p q = record {
  settings = trans-settings s t u p.settings q.settings;
  login = trans-login h s t u p.login q.login;
}

pub send_line-Kept : (line : Text) (s : SmtpSession) → Kept s (send_line line s)
unfolding send_line Net.send_line
send_line-Kept line s = ground arith

pub log_in-Change :
    (h : Host) (username password : Text) (s : SmtpSession)
    → h.authenticate username password ≡ true
    → Change h s (log_in username s)
unfolding log_in
log_in-Change h username password s good = record {
  settings = ground arith;
  login = inr (record {
    user = username;
    password = password;
    accepted = good;
    authenticated = refl;
    username = refl;
    domain = refl;
  });
}

auth_plain-Change :
    (h : Host) (c : Option (Text × Text)) (s : SmtpSession) → Change h s (auth_plain h c s).0
unfolding auth_plain
auth_plain-Change h none s = Kept-Change h s s (Kept-refl s)
auth_plain-Change h (some (username, password)) s =
    elim (Bool-cases (h.authenticate username password)) [
      | inl good ↦ rw (good, auth_plain) (log_in-Change h username password s good)
      | inr bad ↦ rw (bad, auth_plain) (Kept-Change h s s (Kept-refl s))
    ]

pub set_auth_state-Kept : (a : AuthState) (s : SmtpSession) → Kept s (set_auth_state a s)
set_auth_state-Kept a s = ground arith

auth-Change : (h : Host) (cmd : Command) (s : SmtpSession) → Change h s (handle_auth h cmd s).0
unfolding handle_auth
auth-Change h cmd s =
    let same = Kept-Change h s s (Kept-refl s) in
    let (mechanism, rest) = next_word cmd.argument in
    let initial_response = (next_word rest).0 in
    if-both P (is_connected s.state) same (
      if-both P s.authenticated same (
        if-both P (text_eq (upper mechanism) (codes "PLAIN"))
          (if-both P (is_empty initial_response)
            (Kept-Change h s _ (set_auth_state-Kept plain_waiting s))
            (auth_plain-Change h (plain_credentials (h.base64_decode initial_response)) s))
          (if-both P (text_eq (upper mechanism) (codes "LOGIN"))
            (Kept-Change h s _ (set_auth_state-Kept login_waiting_username s)) same)))
  where
    P : SmtpSession × Text → Type 0
    P r = Change h s r.0

execute-Kept :
    (h : Host) (t : CommandType) (cmd : Command) (s : SmtpSession)
    → t ≢ CommandType.auth
    → Kept s (execute h t cmd s).0
unfolding execute handle_helo handle_ehlo greet handle_mail accept_sender handle_rcpt
    accept_recipient add_recipient handle_vrfy verify handle_data handle_rset handle_noop
    handle_quit handle_starttls upgrade handle_help send_line Net.send_line Net.start_tls
execute-Kept h CommandType.auth cmd s other = absurd (other refl)
execute-Kept h _ cmd s other = ground arith

is_auth : (t : CommandType) → (t ≡ CommandType.auth) ⊎ (t ≢ CommandType.auth)
is_auth CommandType.auth = inl refl
is_auth _ = inr (λ e. cc)

execute-Change :
    (h : Host) (t : CommandType) (cmd : Command) (s : SmtpSession)
    → Change h s (execute h t cmd s).0
execute-Change h t cmd s = elim (is_auth t) [
  | inl e ↦ rw e (unfold execute in auth-Change h cmd s)
  | inr other ↦ Kept-Change h s _ (execute-Kept h t cmd s other)
]

stop-Kept : (s : SmtpSession) → Kept s (stop s)
unfolding stop Net.stop
stop-Kept s = ground arith

respond-Kept : (r : SmtpSession × Text) → Kept r.0 (respond r)
unfolding respond
respond-Kept (s, text) = if-both (Kept s) _ (Kept-refl s) (send_line-Kept text s)

pub process_command-Change :
    (h : Host) (line : Text) (s : SmtpSession) → Change h s (process_command h line s)
unfolding process_command
process_command-Change h line s =
    let cmd = Command.parse line in
    let answer = execute h cmd.type cmd s in
    let done =
      Change-trans h s _ _ (execute-Change h cmd.type cmd s)
        (Kept-Change h answer.0 _ (respond-Kept answer)) in
    if-both (Change h s) _ (Kept-Change h s _ (send_line-Kept _ s)) (
      if-both (Change h s) _
        (Change-trans h s _ _ done (Kept-Change h _ _ (stop-Kept (respond answer)))) done)
