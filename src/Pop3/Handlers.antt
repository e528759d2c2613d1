-- ===== src/Pop3/Handlers.antt =====
-- The handlers of pop3/src/pop3_commands.cpp. A handler returns the session and the text of its
-- reply; an empty text means that the reply has been sent already. `none` stands for an exception
-- that leaves the handler, from `std::stoul` or `std::string::substr`. The build has TLS.
use email_server.Auth.{Authenticator, parse_email}
use email_server.Base.{
  ℕ, Bool, true, false, not, ◌||◌, List, [], ◌∷◌, ◌++◌, Option, none, some, if◌then◌else◌, is_empty,
}
use email_server.Net
use email_server.Pop3.Answers.{
  no_such_message, present, show_one, shown_size, shown_id, list_all, uidl_all, show_content,
  show_top,
}
use email_server.Pop3.Command.{Command}
use email_server.Pop3.Response.{okay, error}
use email_server.Pop3.Storage.{Store}
use email_server.Pop3.{
  Pop3Session, MessageInfo, SessionState, authorization, transaction, update, starttls_available,
  get_message, mark_deleted, reset_deleted, total_messages, total_size, open_maildir,
  get_message_content, expunge,
}
use email_server.Text.Numbers.{to_string}
use email_server.Text.Stream.{stoul}
use email_server.Text.{Text, codes, crlf, text_eq, upper}

abbrev pub Reply : Type 0
Reply = Pop3Session × Text

abbrev pub in_authorization : SessionState → Bool
in_authorization authorization = true
in_authorization _ = false

abbrev pub in_transaction : SessionState → Bool
in_transaction transaction = true
in_transaction _ = false

abbrev not_authenticated : Text
not_authenticated = error (codes "Not authenticated")

abbrev already_authenticated : Text
already_authenticated = error (codes "Already authenticated")

unfoldable pub handle_user : Command → Pop3Session → Reply
handle_user cmd s =
    if not (in_authorization s.state)
    then (s, already_authenticated)
    else if is_empty cmd.argument
    then (s, error (codes "Username required"))
    else (record s { pending_username = cmd.argument }, okay (codes "User accepted"))

-- The user whose password was accepted.
unfoldable pub log_in : Text → Pop3Session → Pop3Session
log_in username s =
    let (user, domain) = parse_email username in
    record s { base = record (s.base) { authenticated = true; username = user; domain = domain } }

module _ {W : Type 0} (auth : Authenticator) (store : Store W) where
  -- `handle_pass` once the password is accepted.
  unfoldable pub enter : W → Pop3Session → W × Reply
  enter w s =
      let (w', opened, is_open) = open_maildir store w (log_in s.pending_username s) in
      let count = to_string (total_messages opened) in
      let welcome = okay (codes "Authentication successful, " ++ (count ++ codes " messages")) in
      if is_open
      then (w', (record opened { state = transaction }, welcome))
      else (w', (opened, error (codes "Unable to open mailbox")))

  unfoldable pub handle_pass : Command → W → Pop3Session → W × Reply
  unfolding enter
  handle_pass cmd w s =
      if not (in_authorization s.state)
      then (w, (s, already_authenticated))
      else if is_empty s.pending_username
      then (w, (s, error (codes "USER command required first")))
      else if is_empty cmd.argument
      then (w, (s, error (codes "Password required")))
      else if auth.authenticate s.pending_username cmd.argument
      then enter w s
      else (w, (record s { pending_username = [] }, error (codes "Authentication failed")))

module _ {W : Type 0} (store : Store W) where
  unfoldable pub handle_quit : W → Pop3Session → W × Reply
  handle_quit w s =
      let updating = record s { state = update } in
      let (w', deleted) = expunge store w updating in
      let count = to_string deleted in
      if in_transaction s.state
      then (w', (updating, okay (codes "Goodbye, " ++ (count ++ codes " messages deleted"))))
      else (w, (s, okay (codes "Goodbye")))

unfoldable pub handle_stat : Pop3Session → Reply
handle_stat s =
    if not (in_transaction s.state)
    then (s, not_authenticated)
    else (s, okay (to_string (total_messages s) ++ (b' ' ∷ to_string (total_size s))))

-- "LIST n" and "UIDL n"; an argument that is no number throws.
unfoldable pub handle_one : (MessageInfo → Text) → Option ℕ → Pop3Session → Option Reply
unfolding present show_one
handle_one shown none s = none
handle_one shown (some number) s = some (s, show_one shown (present number s))

unfoldable pub handle_list : Command → Pop3Session → Option Reply
unfolding list_all handle_one
handle_list cmd s =
    if not (in_transaction s.state)
    then some (s, not_authenticated)
    else if not (is_empty cmd.argument)
    then handle_one shown_size (stoul cmd.argument) s
    else some (s, list_all s)

unfoldable pub handle_uidl : Command → Pop3Session → Option Reply
unfolding uidl_all handle_one
handle_uidl cmd s =
    if not (in_transaction s.state)
    then some (s, not_authenticated)
    else if not (is_empty cmd.argument)
    then handle_one shown_id (stoul cmd.argument) s
    else some (s, uidl_all s)

module _ {W : Type 0} (store : Store W) where
  -- `handle_retr` once the number is read.
  unfoldable pub retrieve : W → Option ℕ → Pop3Session → Option Reply
  unfolding show_content
  retrieve w none s = none
  retrieve w (some number) s = elim (present number s) [
    | none ↦ some (s, no_such_message)
    | some info ↦ some (s, show_content (get_message_content store w number s))
  ]

  unfoldable pub handle_retr : Command → W → Pop3Session → Option Reply
  unfolding retrieve
  handle_retr cmd w s =
      if not (in_transaction s.state)
      then some (s, not_authenticated)
      else if is_empty cmd.argument
      then some (s, error (codes "Message number required"))
      else retrieve w (stoul cmd.argument) s

  -- `handle_top` once the numbers are read.
  unfoldable pub retrieve_top : W → Option ℕ → Option ℕ → Pop3Session → Option Reply
  unfolding show_top
  retrieve_top w none count s = none
  retrieve_top w (some number) none s = none
  retrieve_top w (some number) (some count) s = elim (present number s) [
    | none ↦ some (s, no_such_message)
    | some info ↦ elim (show_top (get_message_content store w number s) count) [
      | none ↦ none
      | some shown ↦ some (s, shown)
    ]
  ]

  -- The two arguments, where there are two.
  unfoldable pub top_arguments : W → List Text → Pop3Session → Option Reply
  unfolding retrieve_top
  top_arguments w [] s = some (s, error (codes "Usage: TOP msg n"))
  top_arguments w (a ∷ []) s = some (s, error (codes "Usage: TOP msg n"))
  top_arguments w (a ∷ b ∷ rest) s = retrieve_top w (stoul a) (stoul b) s

  unfoldable pub handle_top : Command → W → Pop3Session → Option Reply
  unfolding top_arguments
  handle_top cmd w s =
      if not (in_transaction s.state)
      then some (s, not_authenticated)
      else top_arguments w cmd.args s

-- `handle_dele` once the number is read.
unfoldable pub delete_number : Option ℕ → Pop3Session → Option Reply
delete_number none s = none
delete_number (some number) s =
    let (marked, done) = mark_deleted number s in
    elim (get_message number s) [
      | none ↦ some (s, no_such_message)
      | some info ↦
          if info.deleted
          then some (s, error (codes "Message already deleted"))
          else if done
          then some (marked, okay (codes "Message " ++ (to_string number ++ codes " deleted")))
          else some (marked, error (codes "Unable to delete message"))
    ]

unfoldable pub handle_dele : Command → Pop3Session → Option Reply
unfolding delete_number
handle_dele cmd s =
    if not (in_transaction s.state)
    then some (s, not_authenticated)
    else if is_empty cmd.argument
    then some (s, error (codes "Message number required"))
    else delete_number (stoul cmd.argument) s

unfoldable pub handle_noop : Pop3Session → Reply
handle_noop s = if not (in_transaction s.state) then (s, not_authenticated) else (s, okay [])

unfoldable pub handle_rset : Pop3Session → Reply
handle_rset s =
    let restored = reset_deleted s in
    if not (in_transaction s.state)
    then (s, not_authenticated)
    else (restored, okay (to_string (total_messages restored) ++ codes " messages restored"))

unfoldable pub handle_capa : Pop3Session → Reply
handle_capa s = (
  s,
  okay (codes "Capability list follows")
      ++ (crlf
          ++ (codes "USER\r\nTOP\r\nUIDL\r\nRESP-CODES\r\nAUTH-RESP-CODE\r\nPIPELINING\r\n"
              ++ ((if starttls_available s then codes "STLS\r\n" else [])
                  ++ ((if in_transaction s.state then codes "EXPIRE NEVER\r\n" else [])
                      ++ (codes "IMPLEMENTATION " ++ (s.hostname ++ codes "\r\n.")))))),
)

-- The reply is sent, and TLS is started.
unfoldable pub upgrade : Pop3Session → Pop3Session
upgrade s =
    let told = Net.send_line (okay (codes "Begin TLS negotiation")) s.base in
    record s { base = Net.start_tls told }

unfoldable pub handle_stls : Pop3Session → Reply
handle_stls s =
    if s.is_tls
    then (s, error (codes "Already using TLS"))
    else if not (in_authorization s.state)
    then (s, error (codes "STLS only allowed before authentication"))
    else if not (starttls_available s)
    then (s, error (codes "STLS not available"))
    else if not s.has_ssl_context
    then (s, error (codes "TLS not configured"))
    else (upgrade s, [])

abbrev is_mechanism : Text → Bool
is_mechanism m = text_eq m (codes "PLAIN") || text_eq m (codes "LOGIN")

unfoldable pub handle_auth : Command → Pop3Session → Reply
handle_auth cmd s =
    if not (in_authorization s.state)
    then (s, already_authenticated)
    else if is_empty cmd.argument
    then (s, okay [] ++ codes "\r\nPLAIN\r\nLOGIN\r\n.")
    else if is_mechanism (upper cmd.argument)
    then (s, error (codes "Use USER/PASS for authentication"))
    else (s, error (codes "Unknown authentication mechanism"))
