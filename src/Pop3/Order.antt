-- ===== src/Pop3/Order.antt =====
-- About the order and the range of the marks of a session.
use email_server.Auth.{Authenticator}
use email_server.Base.{
  ℕ, ◌+◌, Bool, inl, inr, List, [], ◌∷◌, Option, none, some, arith, length, Option-cases, subst,
}
use email_server.Net
use email_server.Pop3.Access.{run_lines-next, run_lines-thrown}
use email_server.Pop3.Command
use email_server.Pop3.Command.{Command, CommandType}
use email_server.Pop3.Handlers.{
  Reply, handle_user, handle_pass, enter, log_in, handle_stat, handle_list, handle_retr,
  handle_dele, handle_noop, handle_rset, handle_quit, handle_top, handle_uidl, handle_capa,
  handle_stls, handle_auth, upgrade, handle_one, retrieve, retrieve_top, top_arguments,
  delete_number,
}
use email_server.Pop3.Protocol.{
  is_quit, keeping, respond, stop, finish, execute, process_command, handle_read, run_lines,
}
use email_server.Pop3.Quit.{MarksInOrder, Between-insert}
use email_server.Pop3.Storage.{Store}
use email_server.Pop3.{
  Pop3Session, mark_deleted, reset_deleted, load_messages, open_maildir, in_range,
}
use email_server.Text.{Text}
use email_server.Text.Stream.{stoul}

abbrev Ordered : {W : Type 0} → Option (W × Reply) → Type 0
Ordered none = Unit
Ordered (some (w, (s, text))) = MarksInOrder s

abbrev pub LeftInOrder : {W : Type 0} → Option (W × Pop3Session) → Type 0
LeftInOrder none = Unit
LeftInOrder (some (w, s)) = MarksInOrder s

mark_deleted-MarksInOrder :
    (number : ℕ) (s : Pop3Session) → MarksInOrder s → MarksInOrder (mark_deleted number s).0
unfolding mark_deleted in_range
mark_deleted-MarksInOrder number s b =
    ground (arith, Between-insert number 1 (1 + length s.messages) s.deleted_messages)

finish-LeftInOrder :
    {W : Type 0} (last : Bool) (o : Option (W × Reply)) → Ordered o → LeftInOrder (finish last o)
unfolding finish respond stop Net.send Net.send_line
finish-LeftInOrder last none b = tt
finish-LeftInOrder last (some (w, (s, text))) b = ground arith

module _ {W : Type 0} (auth : Authenticator) (store : Store W) where
  load_messages-MarksInOrder : (w : W) (s : Pop3Session) → MarksInOrder (load_messages store w s)
  unfolding load_messages
  load_messages-MarksInOrder w s = ground arith

  open_maildir-MarksInOrder :
      (w : W) (s : Pop3Session) → MarksInOrder s → MarksInOrder (open_maildir store w s).1
  unfolding open_maildir
  open_maildir-MarksInOrder w s b =
      let opened : Pop3Session = record s { maildir = some (s.domain, s.username) } in
      ground (
        arith,
        load_messages-MarksInOrder w opened,
        load_messages-MarksInOrder (store.initialize w s.domain s.username).0 opened,
      )

  handle_pass-MarksInOrder :
      (cmd : Command) (w : W) (s : Pop3Session)
      → MarksInOrder s
      → MarksInOrder (handle_pass auth store cmd w s).1.0
  unfolding handle_pass enter
  handle_pass-MarksInOrder cmd w s b =
      let entered = log_in s.pending_username s in
      ground (arith, open_maildir-MarksInOrder w entered (unfold log_in in b))

  delete_number-Ordered :
      (number : Option ℕ) (w : W) (s : Pop3Session)
      → MarksInOrder s
      → Ordered (keeping w (delete_number number s))
  unfolding delete_number keeping
  delete_number-Ordered none w s b = tt
  delete_number-Ordered (some number) w s b = ground (arith, mark_deleted-MarksInOrder number s b)

  execute-Ordered :
      (t : CommandType) (cmd : Command) (w : W) (s : Pop3Session)
      → MarksInOrder s
      → Ordered (execute auth store t cmd w s)
  unfolding execute keeping handle_user handle_stat handle_list handle_retr handle_dele handle_noop
      handle_rset handle_quit handle_top handle_uidl handle_capa handle_stls handle_auth upgrade
      handle_one retrieve retrieve_top top_arguments reset_deleted
  execute-Ordered CommandType.pass cmd w s b = handle_pass-MarksInOrder cmd w s b
  execute-Ordered CommandType.dele cmd w s b =
      ground (arith, delete_number-Ordered (stoul cmd.argument) w s b)
  execute-Ordered _ cmd w s b = ground arith

  handle_read-LeftInOrder :
      (line : Text) (w : W) (s : Pop3Session)
      → MarksInOrder s
      → LeftInOrder (handle_read auth store line w s)
  unfolding handle_read process_command
  handle_read-LeftInOrder line w s b =
      let cmd = Command.parse line in
      let done = finish-LeftInOrder (is_quit cmd.type) _ (execute-Ordered cmd.type cmd w s b) in
      ground (arith, done)

  -- Whatever lines a client sends, marks in order stay in ascending order, without doubles, and in the
  -- range of the messages.
  pub run_lines-LeftInOrder :
      (lines : List Text) (w : W) (s : Pop3Session)
      → MarksInOrder s
      → LeftInOrder (run_lines auth store lines w s)
  unfolding run_lines
  run_lines-LeftInOrder [] w s b = b
  run_lines-LeftInOrder (line ∷ rest) w s b =
      let step = handle_read-LeftInOrder line w s b in
      elim (Option-cases (handle_read auth store line w s)) [
        | inl thrown ↦ rw (run_lines-thrown auth store line rest w s thrown) tt
        | inr ((v, u), next) ↦
            rw (run_lines-next auth store line rest w v s u next)
              (run_lines-LeftInOrder rest v u (subst LeftInOrder next step))
      ]
