-- ===== src/Imap/Handlers/Entry.antt =====
-- The handlers of imap/src/imap_commands.cpp that serve any session, and those that come before the
-- authentication.
use email_server.Auth.{Authenticator, parse_email}
use email_server.Base.{
  none, true, false, not, ◌||◌, [], ◌∷◌, ◌++◌, Option, some, if◌then◌else◌, is_empty,
}
use email_server.Imap.Command.{Command}
use email_server.Imap.Handlers.{Outcome, reply, is_not_authenticated, has_login}
use email_server.Imap.Mailbox.{open_maildir}
use email_server.Imap.Response
use email_server.Imap.Storage.{Store}
use email_server.Imap.Strings.{parse_string}
use email_server.Imap.{
  ImapSession, logout, authenticated_state, set_state, send_line, starttls_available,
}
use email_server.Net
use email_server.Text.Stream.{next_word}
use email_server.Text.{Text, codes}

unfoldable pub capabilities : ImapSession → Text
capabilities s =
    codes "CAPABILITY IMAP4rev1 AUTH=PLAIN AUTH=LOGIN"
    ++ ((if starttls_available s then codes " STARTTLS" else [])
        ++ (if has_login s.state then codes " CHILDREN NAMESPACE" else []))

-- The reply is sent, and TLS is started.
unfoldable pub upgrade : Text → ImapSession → ImapSession
unfolding send_line
upgrade tag s =
    let told = send_line (Response.ok tag (codes "Begin TLS negotiation")) s in
    record told { base = Net.start_tls told.base }

-- The user whose password was accepted.
unfoldable pub log_in : Text → ImapSession → ImapSession
log_in username s =
    let (user, domain) = parse_email username in
    record s { base = record (s.base) { authenticated = true; username = user; domain = domain } }

-- The name and the password: two strings, or else two words.
unfoldable pub either_words : Option Text → Option Text → Text → Text × Text
either_words (some user) (some pass) arguments = (user, pass)
either_words _ _ arguments =
    let (username, rest) = next_word arguments in (username, (next_word rest).0)

unfoldable pub credentials : Text → Text × Text
unfolding parse_string either_words
credentials arguments =
    let (user, behind) = parse_string arguments in
    let (pass, rest) = parse_string behind in either_words user pass arguments

module _ {W : Type 0} where
  unfoldable pub handle_capability : Command → W → ImapSession → Outcome W
  unfolding capabilities
  handle_capability cmd w s = some (
    w,
    s,
    Response.untagged (capabilities s) ∷ Response.ok cmd.tag (codes "CAPABILITY completed") ∷ [],
  )

  unfoldable pub handle_noop : Command → W → ImapSession → Outcome W
  handle_noop cmd w s = reply w s (Response.ok cmd.tag (codes "NOOP completed"))

  unfoldable pub handle_logout : Command → W → ImapSession → Outcome W
  handle_logout cmd w s = some (
    w,
    set_state logout s,
    Response.bye (codes "Logging out") ∷ Response.ok cmd.tag (codes "LOGOUT completed") ∷ [],
  )

  unfoldable pub handle_starttls : Command → W → ImapSession → Outcome W
  unfolding upgrade
  handle_starttls cmd w s =
      if s.is_tls
      then reply w s (Response.bad cmd.tag (codes "Already using TLS"))
      else if not (is_not_authenticated s.state)
      then reply w s (Response.bad cmd.tag (codes "STARTTLS only allowed before authentication"))
      else if not s.has_ssl_context
      then reply w s (Response.refused cmd.tag (codes "TLS not configured"))
      else some (w, upgrade cmd.tag s, [])

module _ {W : Type 0} (auth : Authenticator) (store : Store W) where
  -- `handle_login` once the password is accepted.
  unfoldable pub enter : Text → Text → W → ImapSession → Outcome W
  unfolding open_maildir log_in
  enter tag username w s = elim (open_maildir store w (log_in username s)) [
    | none ↦ none
    | some (w', opened, true) ↦
        reply w' (set_state authenticated_state opened) (Response.ok tag (codes "LOGIN completed"))
    | some (w', opened, false) ↦
        reply w' opened (Response.refused tag (codes "Unable to open mailbox"))
  ]

  unfoldable pub handle_login : Command → W → ImapSession → Outcome W
  unfolding credentials enter
  handle_login cmd w s =
      let (username, password) = credentials cmd.arguments in
      if not (is_not_authenticated s.state)
      then reply w s (Response.bad cmd.tag (codes "Already authenticated"))
      else if is_empty username || is_empty password
      then reply w s (Response.bad cmd.tag (codes "Missing username or password"))
      else if auth.authenticate username password
      then enter cmd.tag username w s
      else reply w s
          (Response.refused cmd.tag (codes "[AUTHENTICATIONFAILED] Authentication failed"))
