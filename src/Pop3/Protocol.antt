-- ===== src/Pop3/Protocol.antt =====
-- `CommandHandler::execute` of pop3/src/pop3_commands.cpp, and `on_connect`, `on_data` and
-- `process_command` of pop3/src/pop3_session.cpp: what a session does with each line that it reads.
use email_server.Auth.{Authenticator}
use email_server.Base.{
  Bool, true, false, List, [], ◌∷◌, ◌++◌, Option, none, some, if◌then◌else◌, is_empty,
}
use email_server.Net
use email_server.Pop3.Command
use email_server.Pop3.Command.{Command, CommandType}
use email_server.Pop3.Handlers.{
  Reply, handle_user, handle_pass, handle_stat, handle_list, handle_retr, handle_dele, handle_noop,
  handle_rset, handle_quit, handle_top, handle_uidl, handle_capa, handle_stls, handle_auth,
}
use email_server.Pop3.Response.{okay, error}
use email_server.Pop3.Storage.{Store}
use email_server.Pop3.{Pop3Session}
use email_server.Text.{Text, codes, crlf, find_text}

-- A reply that leaves the world as it is.
unfoldable pub keeping {ℓ} : {W : Type ℓ} → W → Option Reply → Option (W × Reply)
keeping w none = none
keeping w (some reply) = some (w, reply)

unfoldable pub on_connect : Pop3Session → Pop3Session
on_connect s = record s {
  base = Net.send_line (okay (s.hostname ++ codes " POP3 server ready")) s.base;
}

-- Both ways of sending a reply that is not empty.
unfoldable pub respond : Reply → Pop3Session
respond (s, response) = if is_empty response then s else elim (find_text crlf response) [
  | some i ↦ record s { base = Net.send (response ++ crlf) s.base }
  | none ↦ record s { base = Net.send_line response s.base }
]

abbrev pub is_unknown : CommandType → Bool
is_unknown CommandType.unknown = true
is_unknown _ = false

abbrev pub is_quit : CommandType → Bool
is_quit CommandType.quit = true
is_quit _ = false

unfoldable pub stop : Pop3Session → Pop3Session
stop s = record s { base = Net.stop s.base }

-- The reply of a command that returned, and the end of the session after QUIT.
unfoldable pub finish {ℓ} : {W : Type ℓ} → Bool → Option (W × Reply) → Option (W × Pop3Session)
unfolding respond stop
finish last none = none
finish last (some (w, reply)) = some (w, if last then stop (respond reply) else respond reply)

module _ {W : Type 0} (auth : Authenticator) (store : Store W) where
  -- The table that `CommandHandler::CommandHandler` fills; APOP has no handler.
  unfoldable pub execute : CommandType → Command → W → Pop3Session → Option (W × Reply)
  unfolding keeping
  execute CommandType.user cmd w s = some (w, handle_user cmd s)
  execute CommandType.pass cmd w s = some (handle_pass auth store cmd w s)
  execute CommandType.stat cmd w s = some (w, handle_stat s)
  execute CommandType.list cmd w s = keeping w (handle_list cmd s)
  execute CommandType.retr cmd w s = keeping w (handle_retr store cmd w s)
  execute CommandType.dele cmd w s = keeping w (handle_dele cmd s)
  execute CommandType.noop cmd w s = some (w, handle_noop s)
  execute CommandType.rset cmd w s = some (w, handle_rset s)
  execute CommandType.quit cmd w s = some (handle_quit store w s)
  execute CommandType.top cmd w s = keeping w (handle_top store cmd w s)
  execute CommandType.uidl cmd w s = keeping w (handle_uidl cmd s)
  execute CommandType.capa cmd w s = some (w, handle_capa s)
  execute CommandType.stls cmd w s = some (w, handle_stls s)
  execute CommandType.auth cmd w s = some (w, handle_auth cmd s)
  execute _ cmd w s = some (w, (s, error (codes "Unknown command")))

  -- `process_command`; `none` is an exception, which ends the server.
  unfoldable pub process_command : Text → W → Pop3Session → Option (W × Pop3Session)
  unfolding finish
  process_command line w s =
      let cmd = Command.parse line in
      if is_unknown cmd.type
      then some (w, record s { base = Net.send_line (error (codes "Unknown command")) s.base })
      else finish (is_quit cmd.type) (execute cmd.type cmd w s)

  -- `Session::handle_read`, once a line is taken from the buffer: a stopped session reads no more.
  unfoldable pub handle_read : Text → W → Pop3Session → Option (W × Pop3Session)
  unfolding process_command
  handle_read line w s = if s.stopped then some (w, s) else process_command line w s

  -- The lines that a client sends, one after the other.
  unfoldable pub run_lines : List Text → W → Pop3Session → Option (W × Pop3Session)
  run_lines [] w s = some (w, s)
  run_lines (line ∷ rest) w s = elim (handle_read line w s) [
    | none ↦ none
    | some (w', s') ↦ run_lines rest w' s'
  ]
