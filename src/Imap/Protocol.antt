-- ===== src/Imap/Protocol.antt =====
-- `handle_uid` and `CommandHandler::execute` of imap/src/imap_commands.cpp, and `on_connect`, `on_data`
-- and `process_command` of imap/src/imap_session.cpp: what a session does with each line it reads.
use email_server.Auth.{Authenticator}
use email_server.Base.{
  ℕ, Bool, true, false, not, List, [], ◌∷◌, ◌++◌, Option, none, some, if◌then◌else◌, is_empty,
}
use email_server.Imap.Command
use email_server.Imap.Command.{Command, CommandType}
use email_server.Imap.Handlers.Entry.{
  handle_capability, handle_noop, handle_logout, handle_starttls, handle_login,
}
use email_server.Imap.Handlers.Fetching.{handle_fetch}
use email_server.Imap.Handlers.Mailboxes.{
  handle_select, handle_examine, handle_create, handle_delete, handle_rename, handle_list,
  handle_status, handle_append,
}
use email_server.Imap.Handlers.Selected.{
  handle_search, handle_check, handle_close, handle_expunge, handle_store, handle_copy,
  search_reply,
}
use email_server.Imap.Handlers.{Outcome, reply, is_selected}
use email_server.Imap.Response
use email_server.Imap.Storage.{Store}
use email_server.Imap.{ImapSession, send_line}
use email_server.Net
use email_server.Text.Stream.{next_word, skip_ws, first_line}
use email_server.Text.{Text, codes, text_eq, upper}

unfoldable pub on_connect : ImapSession → ImapSession
unfolding send_line
on_connect s = send_line (codes "* OK " ++ (s.hostname ++ codes " IMAP4rev1 Service Ready")) s

-- The lines of a reply, each sent in its turn.
unfoldable pub send_lines : List Text → ImapSession → ImapSession
unfolding send_line
send_lines [] s = s
send_lines (line ∷ rest) s = send_lines rest (send_line line s)

abbrev pub is_unknown : CommandType → Bool
is_unknown CommandType.unknown = true
is_unknown _ = false

abbrev pub is_logout : CommandType → Bool
is_logout CommandType.logout = true
is_logout _ = false

unfoldable pub stop : ImapSession → ImapSession
stop s = record s { base = Net.stop s.base }

-- The replies of a command that returned, and the end of the session after LOGOUT.
unfoldable pub finish {ℓ} :
    {W : Type ℓ} → Bool → Option (W × ImapSession × List Text) → Option (W × ImapSession)
unfolding send_lines stop
finish last none = none
finish last (some (w, s, responses)) =
    some (w, if last then stop (send_lines responses s) else send_lines responses s)

module _ {W : Type 0} (store : Store W) (put_time : ℕ → Text) where
  -- The commands that UID wraps; their handlers take the numbers as sequence numbers.
  unfoldable pub handle_uid : Command → W → ImapSession → Outcome W
  handle_uid cmd w s =
      let (word, rest) = next_word cmd.arguments in
      let sub_cmd = upper word in
      let sub_args = first_line (skip_ws rest) in
      let wrapped = record cmd {
        name = sub_cmd;
        arguments = sub_args;
        type = Command.string_to_type sub_cmd;
      } in
      if not (is_selected s.state)
      then reply w s (Response.bad cmd.tag (codes "No mailbox selected"))
      else if text_eq sub_cmd (codes "SEARCH")
      then search_reply true (codes "UID SEARCH completed") cmd.tag sub_args w s
      else if text_eq sub_cmd (codes "FETCH")
      then handle_fetch store put_time wrapped w s
      else if text_eq sub_cmd (codes "STORE")
      then handle_store store wrapped w s
      else if text_eq sub_cmd (codes "COPY")
      then handle_copy store wrapped w s
      else reply w s (Response.bad cmd.tag (codes "Unknown UID command"))

module _ {W : Type 0} (auth : Authenticator) (store : Store W) (put_time : ℕ → Text) where
  -- The table that `CommandHandler::CommandHandler` fills; AUTHENTICATE, SUBSCRIBE and UNSUBSCRIBE
  -- have no handler.
  unfoldable pub execute : CommandType → Command → W → ImapSession → Outcome W
  unfolding handle_uid
  execute CommandType.capability cmd w s = handle_capability cmd w s
  execute CommandType.noop cmd w s = handle_noop cmd w s
  execute CommandType.logout cmd w s = handle_logout cmd w s
  execute CommandType.starttls cmd w s = handle_starttls cmd w s
  execute CommandType.login cmd w s = handle_login auth store cmd w s
  execute CommandType.select cmd w s = handle_select store cmd w s
  execute CommandType.examine cmd w s = handle_examine store cmd w s
  execute CommandType.create cmd w s = handle_create store cmd w s
  execute CommandType.delete cmd w s = handle_delete store cmd w s
  execute CommandType.rename cmd w s = handle_rename store cmd w s
  execute CommandType.list cmd w s = handle_list store cmd w s
  execute CommandType.lsub cmd w s = handle_list store cmd w s
  execute CommandType.status cmd w s = handle_status store cmd w s
  execute CommandType.append cmd w s = handle_append cmd w s
  execute CommandType.check cmd w s = handle_check cmd w s
  execute CommandType.close cmd w s = handle_close store cmd w s
  execute CommandType.expunge cmd w s = handle_expunge store cmd w s
  execute CommandType.search cmd w s = handle_search cmd w s
  execute CommandType.fetch cmd w s = handle_fetch store put_time cmd w s
  execute CommandType.store cmd w s = handle_store store cmd w s
  execute CommandType.copy cmd w s = handle_copy store cmd w s
  execute CommandType.uid cmd w s = handle_uid store put_time cmd w s
  execute _ cmd w s = reply w s (Response.bad cmd.tag (codes "Unknown command"))

  -- `process_command`.
  unfoldable pub process_command : Text → W → ImapSession → Option (W × ImapSession)
  unfolding execute finish
  process_command line w s =
      let cmd = Command.parse line in
      let tag = if is_empty cmd.tag then codes "*" else cmd.tag in
      if is_unknown cmd.type
      then some (w, send_line (Response.bad tag (codes "Unknown command")) s)
      else finish (is_logout cmd.type) (execute cmd.type cmd w s)

  -- `Session::handle_read`, once a line is taken from the buffer: a stopped session reads no more.
  unfoldable pub handle_read : Text → W → ImapSession → Option (W × ImapSession)
  unfolding process_command
  handle_read line w s = if s.stopped then some (w, s) else process_command line w s

  -- The lines that a client sends, one after the other.
  unfoldable pub run_lines : List Text → W → ImapSession → Option (W × ImapSession)
  unfolding handle_read
  run_lines [] w s = some (w, s)
  run_lines (line ∷ rest) w s = elim (handle_read line w s) [
    | none ↦ none
    | some (w', s') ↦ run_lines rest w' s'
  ]
