-- ===== src/Smtp/Login.antt =====
-- `handle_auth` of smtp/src/smtp_commands.cpp and `process_auth_response` of
-- smtp/src/smtp_session.cpp.
use email_server.Auth.{parse_email}
use email_server.Base.{
  ℕ, suc, ◌+◌, ◌-◌, Bool, true, false, [], Option, none, some, if◌then◌else◌, is_empty, drop,
}
use email_server.Smtp.Command.{Command}
use email_server.Smtp.Host.{Host}
use email_server.Smtp.Reply.{
  make, auth_success, auth_continue, auth_invalid, bad_sequence, param_not_implemented,
}
use email_server.Smtp.{
  SmtpSession, SessionState, AuthState, connected, idle, plain_waiting, login_waiting_username,
  login_waiting_password, authenticated_state, send_line, set_auth_state,
}
use email_server.Text.Stream.{next_word}
use email_server.Text.{Text, codes, text_eq, upper, find_if, find_char, find_from, substr}

-- `first_null + 1` as a `size_t`: one behind `npos` is 0.
abbrev behind : Option ℕ → ℕ
behind none = 0
behind (some i) = suc i

-- The texts that the two places cut out, if both are there.
unfoldable pub cut : Text → Option ℕ → Option ℕ → Option (Text × Text)
cut decoded none second = none
cut decoded (some i) none = none
cut decoded (some i) (some j) = some (substr decoded (i + 1) (j - i - 1), drop (j + 1) decoded)

-- The user's name between the first two zero bytes, and the password behind them.
unfoldable pub plain_credentials : Text → Option (Text × Text)
unfolding cut find_if find_from
plain_credentials decoded =
    let first = find_char 0 decoded in cut decoded first (find_from 0 decoded (behind first))

-- What a session keeps of a user who has proved who he is.
unfoldable pub log_in : Text → SmtpSession → SmtpSession
log_in username s =
    let (user, domain) = parse_email username in
    record s {
      base = record (s.base) { authenticated = true; username = user; domain = domain };
      auth_state = authenticated_state;
    }

abbrev pub is_connected : SessionState → Bool
is_connected connected = true
is_connected _ = false

module _ (h : Host) where
  -- The reply to "AUTH PLAIN" with its initial response.
  unfoldable pub auth_plain : Option (Text × Text) → SmtpSession → SmtpSession × Text
  auth_plain none s = (s, make auth_invalid (codes "Invalid credentials"))
  auth_plain (some (username, password)) s =
      if h.authenticate username password
      then (log_in username s, make auth_success (codes "Authentication successful"))
      else (s, make auth_invalid (codes "Authentication failed"))

  unfoldable pub handle_auth : Command → SmtpSession → SmtpSession × Text
  unfolding auth_plain
  handle_auth cmd s =
      let (mechanism, rest) = next_word cmd.argument in
      let initial_response = (next_word rest).0 in
      if is_connected s.state
      then (s, make bad_sequence (codes "Send HELO/EHLO first"))
      else if s.authenticated
      then (s, make bad_sequence (codes "Already authenticated"))
      else if text_eq (upper mechanism) (codes "PLAIN")
      then (if is_empty initial_response
          then (set_auth_state plain_waiting s, make auth_continue [])
          else auth_plain (plain_credentials (h.base64_decode initial_response)) s)
      else if text_eq (upper mechanism) (codes "LOGIN")
      then (
        set_auth_state login_waiting_username s,
        make auth_continue (h.base64_encode (codes "Username:")),
      )
      else (s, make param_not_implemented (codes "Unknown authentication mechanism"))

  -- The end of both mechanisms: the verdict on a name and a password.
  unfoldable pub conclude : Text → Text → SmtpSession → SmtpSession
  conclude username password s =
      if h.authenticate username password
      then send_line (make auth_success (codes "Authentication successful")) (log_in username s)
      else set_auth_state idle (send_line (make auth_invalid (codes "Authentication failed")) s)

  unfoldable pub plain_response : Option (Text × Text) → SmtpSession → SmtpSession
  unfolding conclude
  plain_response none s =
      set_auth_state idle (send_line (make auth_invalid (codes "Invalid credentials format")) s)
  plain_response (some (username, password)) s = conclude username password s

  -- One case for each state of the exchange.
  unfoldable pub auth_response : AuthState → Text → SmtpSession → SmtpSession
  unfolding plain_response
  auth_response plain_waiting decoded s = plain_response (plain_credentials decoded) s
  auth_response login_waiting_username decoded s =
      send_line (make auth_continue (h.base64_encode (codes "Password:")))
        (record s { auth_username = decoded; auth_state = login_waiting_password })
  auth_response login_waiting_password decoded s =
      let done = conclude s.auth_username decoded s in record done { auth_username = [] }
  auth_response _ decoded s = set_auth_state idle s

  unfoldable pub process_auth_response : Text → SmtpSession → SmtpSession
  unfolding auth_response
  process_auth_response line s = auth_response s.auth_state (h.base64_decode line) s
