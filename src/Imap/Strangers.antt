-- ===== src/Imap/Strangers.antt =====
-- What a client reaches whose credentials are not accepted.
use email_server.Auth.{Authenticator}
use email_server.Base.{
  ℕ, ◌≡◌, refl, sym, Bool, false, inl, inr, List, [], ◌∷◌, subst, Option, none, some, arith,
  Option-cases,
}
use email_server.Imap.Command
use email_server.Imap.Command.{Command, CommandType}
use email_server.Imap.Handlers.Entry.{
  handle_capability, handle_noop, handle_logout, handle_starttls, handle_login, credentials,
  upgrade,
}
use email_server.Imap.Handlers.Fetching.{handle_fetch}
use email_server.Imap.Handlers.Mailboxes.{
  handle_select, handle_examine, handle_create, handle_delete, handle_rename, handle_list,
  handle_status, handle_append,
}
use email_server.Imap.Handlers.Selected.{
  handle_search, handle_check, handle_close, handle_expunge, handle_store, handle_copy,
}
use email_server.Imap.Handlers.{Outcome, has_login}
use email_server.Imap.Invariant.Parts.{send_lines-SameParts}
use email_server.Imap.Invariant.{run_lines-next}
use email_server.Imap.Protocol.{
  handle_uid, execute, finish, process_command, handle_read, run_lines, stop, is_logout,
}
use email_server.Imap.Storage.{Store}
use email_server.Imap.{ImapSession, send_line}
use email_server.Pop3.Access.{RefusesAll}
use email_server.Text.{Text}

-- A command returned, left the world as it was, and a session without a login without one.
abbrev Outside : {W : Type 0} → W → Outcome W → Type 0
Outside w none = ⊥
Outside w (some (w', s, lines)) = (w' ≡ w) × (has_login s.state ≡ false)

-- The session is there, the world is the same, and there is no login.
abbrev pub NoLogin : {W : Type 0} → W → Option (W × ImapSession) → Type 0
NoLogin w none = ⊥
NoLogin w (some (w', t)) = (w' ≡ w) × (has_login t.state ≡ false)

finish-NoLogin :
    {W : Type 0} (last : Bool) (w : W) (o : Outcome W) → Outside w o → NoLogin w (finish last o)
unfolding finish stop
finish-NoLogin last w none out = out
finish-NoLogin last w (some (w', s, lines)) (same, closed) =
    ground (arith, send_lines-SameParts lines s)

module _ {W : Type 0} (auth : Authenticator) (store : Store W) (put_time : ℕ → Text) where
  execute-Outside :
      (t : CommandType) (cmd : Command) (w : W) (s : ImapSession)
      → RefusesAll auth
      → has_login s.state ≡ false
      → Outside w (execute auth store put_time t cmd w s)
  unfolding execute handle_capability handle_noop handle_logout handle_starttls handle_login upgrade
      send_line handle_select handle_examine handle_create handle_delete handle_rename handle_list
      handle_status handle_append handle_check handle_close handle_expunge handle_search
      handle_fetch handle_store handle_copy handle_uid
  execute-Outside CommandType.login cmd w s no_one q =
      let (username, password) = credentials cmd.arguments in
      ground (arith, no_one username password)
  execute-Outside _ cmd w s no_one q = ground arith

  handle_read-NoLogin :
      (line : Text) (w : W) (s : ImapSession)
      → RefusesAll auth
      → has_login s.state ≡ false
      → NoLogin w (handle_read auth store put_time line w s)
  unfolding handle_read process_command send_line
  handle_read-NoLogin line w s no_one q =
      let cmd = Command.parse line in
      let done =
        finish-NoLogin (is_logout cmd.type) w _ (execute-Outside cmd.type cmd w s no_one q) in
      ground (arith, done)

  -- Where no credentials are accepted, a session without a login comes to none, whatever lines are
  -- sent; nothing outside of it changes, and no line ends the server.
  pub run_lines-NoLogin :
      (lines : List Text) (w : W) (s : ImapSession)
      → RefusesAll auth
      → has_login s.state ≡ false
      → NoLogin w (run_lines auth store put_time lines w s)
  unfolding run_lines
  run_lines-NoLogin [] w s no_one q = (refl, q)
  run_lines-NoLogin (line ∷ rest) w s no_one q =
      let step = handle_read-NoLogin line w s no_one q in
      elim (Option-cases (handle_read auth store put_time line w s)) [
        | inl thrown ↦ absurd (subst (NoLogin w) thrown step)
        | inr ((v, u), next) ↦
            let (same, closed) = subst (NoLogin w) next step in
            let after = run_lines-NoLogin rest v u no_one closed in
            let onward = sym (run_lines-next auth store put_time line rest w v s u next) in
            subst (NoLogin w) onward
              (subst (λ x. NoLogin x (run_lines auth store put_time rest v u)) same after)
      ]
