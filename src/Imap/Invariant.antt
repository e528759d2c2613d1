-- ===== src/Imap/Invariant.antt =====
-- What the states of a session say of its directory and of its mailbox.
pub mod Parts
pub mod Commands
use email_server.Auth.{Authenticator}
use email_server.Base.{
  ℕ, ◌≡◌, ◌≢◌, refl, sym, ap, ◌∙◌, Bool, true, false, inl, inr, List, [], ◌∷◌, ◌++◌, subst, Option,
  none, some, arith, Option-cases, Bool-cases, if-both, suc, if◌then◌else◌,
}
use email_server.Imap.Action.{StoreAction, StoreType}
use email_server.Imap.Command
use email_server.Imap.Command.{Command, CommandType}
use email_server.Imap.Fetch.{FetchItem, parse_fetch_items}
use email_server.Imap.Handlers.Entry.{
  handle_capability, handle_noop, handle_logout, handle_starttls, handle_login, enter, log_in,
  upgrade,
}
use email_server.Imap.Handlers.Fetching.{handle_fetch, with_set, fetch_reply}
use email_server.Imap.Handlers.Mailboxes.{
  handle_select, handle_examine, handle_create, handle_delete, handle_rename, handle_list,
  handle_status, handle_append, rename_parsed, done_or_not, status_reply,
}
use email_server.Imap.Handlers.Selected.{
  handle_search, handle_check, handle_close, handle_expunge, handle_store, handle_copy,
  search_reply, silent, updated_line, store_each, store_reply, change_flags, copy_reply,
  copy_parsed,
}
use email_server.Imap.Handlers.{Outcome}
use email_server.Imap.Mailbox.{
  add_messages, update_mailbox_counts, clear_messages, load_messages, open_maildir, select_mailbox,
  close_mailbox, expunge, choose,
}
use email_server.Imap.Messages.{set_flags, add_flags, remove_flags, get_message_by_sequence}
use email_server.Imap.Protocol.{
  handle_uid, execute, finish, is_logout, process_command, handle_read, run_lines, send_lines, stop,
}
use email_server.Imap.Sequence
use email_server.Imap.Sequence.{Range, contains}
use email_server.Imap.Storage.{Store}
use email_server.Imap.{
  ImapSession, CachedMessage, SessionState, SelectedMailbox, not_authenticated, next_u32,
  authenticated_state, selected_state, logout, send_line,
}
use email_server.Maildir.{Message, MailboxInfo}
use email_server.Net
use email_server.Text.Stream.{next_word, first_line, skip_ws}
use email_server.Text.{Text, upper}
use Parts.{
  is_some, ready_state, IsReady, SameParts, add_messages-state, add_messages-maildir,
  add_messages-selected, send_lines-SameParts, load_messages-SameParts, choose-chosen,
  select_mailbox-IsReady, open_maildir-opened, open_maildir-state, expunge-Kept,
  set_flags-SameParts, change_flags-SameParts, store_each-SameParts,
}
use Commands.{
  Left, Left-returned, with_set-Left, copy_parsed-Left, login-Left, handle_close-Left,
  handle_expunge-Left, store_reply-Left, copy_reply-Left, handle_store-Left, handle_copy-Left,
  mailboxes-Left, fetch_reply-Left, handle_fetch-Left, handle_uid-Left, simple-Left,
  handle_search-Left, handle_starttls-Left,
}

finish-IsReady :
    {W : Type 0} (last : Bool) (w w' : W) (s t : ImapSession) (replies : List Text)
    → finish last (some (w, s, replies)) ≡ some (w', t)
    → IsReady s
    → IsReady t
unfolding finish stop
finish-IsReady last w w' s t replies e h = ground (arith, send_lines-SameParts replies s)

finish-none : {W : Type 0} (last : Bool) (w : W) → finish {W = W} last none ≡ none
unfolding finish
finish-none last w = refl

module _ {W : Type 0} (auth : Authenticator) (store : Store W) (put_time : ℕ → Text) where
  execute-Left :
      (t : CommandType) (cmd : Command) (w : W) (s : ImapSession)
      → IsReady s
      → Left (execute auth store put_time t cmd w s)
  unfolding execute
  execute-Left CommandType.login cmd w s h = login-Left auth store cmd w s h
  execute-Left CommandType.starttls cmd w s h = handle_starttls-Left cmd w s h
  execute-Left CommandType.select cmd w s h = (mailboxes-Left store cmd w s h).0
  execute-Left CommandType.examine cmd w s h = (mailboxes-Left store cmd w s h).1
  execute-Left CommandType.create cmd w s h = (mailboxes-Left store cmd w s h).2
  execute-Left CommandType.delete cmd w s h = (mailboxes-Left store cmd w s h).3
  execute-Left CommandType.rename cmd w s h = (mailboxes-Left store cmd w s h).4
  execute-Left CommandType.list cmd w s h = (mailboxes-Left store cmd w s h).5
  execute-Left CommandType.lsub cmd w s h = (mailboxes-Left store cmd w s h).5
  execute-Left CommandType.status cmd w s h = (mailboxes-Left store cmd w s h).6
  execute-Left CommandType.append cmd w s h = (mailboxes-Left store cmd w s h).7
  execute-Left CommandType.close cmd w s h = handle_close-Left store cmd w s h
  execute-Left CommandType.expunge cmd w s h = handle_expunge-Left store cmd w s h
  execute-Left CommandType.search cmd w s h = handle_search-Left cmd w s h
  execute-Left CommandType.fetch cmd w s h = handle_fetch-Left store put_time cmd w s h
  execute-Left CommandType.store cmd w s h = handle_store-Left store cmd w s h
  execute-Left CommandType.copy cmd w s h = handle_copy-Left store cmd w s h
  execute-Left CommandType.uid cmd w s h = handle_uid-Left store put_time cmd w s h
  execute-Left CommandType.capability cmd w s h = (simple-Left cmd w s h).0
  execute-Left CommandType.noop cmd w s h = (simple-Left cmd w s h).1
  execute-Left CommandType.logout cmd w s h = (simple-Left cmd w s h).2
  execute-Left CommandType.check cmd w s h = (simple-Left cmd w s h).3
  execute-Left _ cmd w s h = Left-returned w s _ h

  handle_read-IsReady :
      (line : Text) (w w' : W) (s t : ImapSession)
      → IsReady s
      → handle_read auth store put_time line w s ≡ some (w', t)
      → IsReady t
  unfolding handle_read process_command send_line Left
  handle_read-IsReady line w w' s t h e =
      let cmd = Command.parse line in
      elim (Option-cases (execute auth store put_time cmd.type cmd w s)) [
        | inl thrown ↦ ground (arith, thrown, finish-none (is_logout cmd.type) w)
        | inr ((v, u, replies), done) ↦
            let left = execute-Left cmd.type cmd w s h in
            let still = finish-IsReady (is_logout cmd.type) v w' u t replies in
            ground (arith, done, left, still)
      ]

  -- After a line that returned, the lines that follow it run.
  pub run_lines-next :
      (line : Text) (rest : List Text) (w v : W) (s u : ImapSession)
      → handle_read auth store put_time line w s ≡ some (v, u)
      → run_lines auth store put_time (line ∷ rest) w s ≡ run_lines auth store put_time rest v u
  unfolding run_lines
  run_lines-next line rest w v s u next = rw (next, run_lines) refl

  pub run_lines-thrown :
      (line : Text) (rest : List Text) (w : W) (s : ImapSession)
      → handle_read auth store put_time line w s ≡ none
      → run_lines auth store put_time (line ∷ rest) w s ≡ none
  unfolding run_lines
  run_lines-thrown line rest w s thrown = rw (thrown, run_lines) refl

  -- Whatever lines a client sends, and whatever the directory answers, a session that had them keeps
  -- its open directory in every state after the login, and its mailbox in SELECTED.
  pub run_lines-IsReady :
      (lines : List Text) (w w' : W) (s t : ImapSession)
      → IsReady s
      → run_lines auth store put_time lines w s ≡ some (w', t)
      → IsReady t
  unfolding run_lines
  run_lines-IsReady [] w w' s t h e = ground arith
  run_lines-IsReady (line ∷ rest) w w' s t h e =
      elim (Option-cases (handle_read auth store put_time line w s)) [
        | inl thrown ↦ cc (run_lines-thrown line rest w s thrown)
        | inr ((v, u), next) ↦
            run_lines-IsReady rest v w' u t (handle_read-IsReady line w v s u h next)
              (sym (run_lines-next line rest w v s u next) ∙ e)
      ]
