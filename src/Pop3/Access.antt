-- ===== src/Pop3/Access.antt =====
-- Who reaches the mail directories, and when.
use email_server.Auth.{Authenticator}
use email_server.Base.{
  ◌≡◌, ◌≢◌, refl, sym, ◌∙◌, Bool, false, inl, inr, List, [], ◌∷◌, subst, Option, none, some, arith,
  All, Option-cases,
}
use email_server.Net
use email_server.Pop3.Command
use email_server.Pop3.Command.{Command, CommandType}
use email_server.Pop3.Handlers.{
  Reply, in_transaction, handle_user, handle_pass, handle_stat, handle_list, handle_retr,
  handle_dele, handle_noop, handle_rset, handle_quit, handle_top, handle_uidl, handle_capa,
  handle_stls, handle_auth, upgrade, handle_one, retrieve, retrieve_top, top_arguments,
  delete_number,
}
use email_server.Pop3.Protocol.{
  respond, stop, finish, execute, process_command, handle_read, run_lines, is_quit,
}
use email_server.Pop3.Storage.{Store}
use email_server.Pop3.{Pop3Session, transaction, mark_deleted, reset_deleted}
use email_server.Text.{Text}

-- A command that returned left the world as it was, and a session in a transaction in one.
abbrev Stays : {W : Type 0} → W → Option (W × Reply) → Type 0
Stays w none = Unit
Stays w (some (w', (s, text))) = (w' ≡ w) × (s.state ≡ transaction)

module _ {W : Type 0} (auth : Authenticator) (store : Store W) where
  execute-Stays :
      (t : CommandType) (cmd : Command) (w : W) (s : Pop3Session)
      → t ≢ CommandType.quit
      → s.state ≡ transaction
      → Stays w (execute auth store t cmd w s)
  unfolding execute handle_user handle_pass handle_stat handle_list handle_retr handle_dele
      handle_noop handle_rset handle_top handle_uidl handle_capa handle_stls handle_auth handle_one
      retrieve retrieve_top top_arguments delete_number mark_deleted reset_deleted
  execute-Stays CommandType.quit cmd w s n t = absurd (n refl)
  execute-Stays _ cmd w s n t = ground arith

  handle_read-Stays :
      (line : Text) (w w' : W) (s t : Pop3Session)
      → (Command.parse line).type ≢ CommandType.quit
      → s.state ≡ transaction
      → handle_read auth store line w s ≡ some (w', t)
      → (w' ≡ w) × (t.state ≡ transaction)
  unfolding handle_read process_command finish respond stop Net.send Net.send_line
  handle_read-Stays line w w' s t n q e =
      ground (arith, execute-Stays (Command.parse line).type (Command.parse line) w s n q)

  -- After a line that returned, the lines that follow it run.
  pub run_lines-next :
      (line : Text) (rest : List Text) (w v : W) (s u : Pop3Session)
      → handle_read auth store line w s ≡ some (v, u)
      → run_lines auth store (line ∷ rest) w s ≡ run_lines auth store rest v u
  unfolding run_lines
  run_lines-next line rest w v s u next = rw (next, run_lines) refl

  pub run_lines-thrown :
      (line : Text) (rest : List Text) (w : W) (s : Pop3Session)
      → handle_read auth store line w s ≡ none
      → run_lines auth store (line ∷ rest) w s ≡ none
  unfolding run_lines
  run_lines-thrown line rest w s thrown = rw (thrown, run_lines) refl

  -- In a transaction, lines that are no QUIT, and of which none throws, change nothing outside of the
  -- session and leave the transaction open: a message that is marked is not deleted before QUIT.
  pub run_lines-transaction :
      (lines : List Text) (w w' : W) (s t : Pop3Session)
      → All (λ line. (Command.parse line).type ≢ CommandType.quit) lines
      → s.state ≡ transaction
      → run_lines auth store lines w s ≡ some (w', t)
      → (w' ≡ w) × (t.state ≡ transaction)
  unfolding run_lines
  run_lines-transaction [] w w' s t n q e = ground arith
  run_lines-transaction (line ∷ rest) w w' s t n q e =
      elim (Option-cases (handle_read auth store line w s)) [
        | inl thrown ↦ cc (run_lines-thrown line rest w s thrown)
        | inr ((v, u), next) ↦
            let (same, still) = handle_read-Stays line w v s u n.0 q next in
            let onward = sym (run_lines-next line rest w v s u next) ∙ e in
            let (same', still') = run_lines-transaction rest v w' u t n.1 still onward in
            (same' ∙ same, still')
      ]

-- A command returned, left the world as it was, and a session out of a transaction out of one.
abbrev Outside : {W : Type 0} → W → Option (W × Reply) → Type 0
Outside w none = ⊥
Outside w (some (w', (s, text))) = (w' ≡ w) × (in_transaction s.state ≡ false)

-- No name and password are accepted.
abbrev pub RefusesAll : Authenticator → Type 0
RefusesAll auth = (username password : Text) → auth.authenticate username password ≡ false

-- The session is there, the world is the same, and no transaction is open.
abbrev pub LeftOutside : {W : Type 0} → W → Option (W × Pop3Session) → Type 0
LeftOutside w none = ⊥
LeftOutside w (some (w', t)) = (w' ≡ w) × (in_transaction t.state ≡ false)

finish-LeftOutside :
    {W : Type 0} (last : Bool) (w : W) (o : Option (W × Reply))
    → Outside w o
    → LeftOutside w (finish last o)
unfolding finish respond stop Net.send Net.send_line
finish-LeftOutside last w none out = out
finish-LeftOutside last w (some (w', (s, text))) (same, closed) = ground arith

module _ {W : Type 0} (auth : Authenticator) (store : Store W) where
  execute-Outside :
      (t : CommandType) (cmd : Command) (w : W) (s : Pop3Session)
      → RefusesAll auth
      → in_transaction s.state ≡ false
      → Outside w (execute auth store t cmd w s)
  unfolding execute handle_user handle_pass handle_stat handle_list handle_retr handle_dele
      handle_noop handle_rset handle_top handle_uidl handle_capa handle_stls handle_auth handle_quit
      upgrade
  execute-Outside CommandType.pass cmd w s no_one q =
      ground (arith, no_one s.pending_username cmd.argument)
  execute-Outside _ cmd w s no_one q = ground arith

  handle_read-LeftOutside :
      (line : Text) (w : W) (s : Pop3Session)
      → RefusesAll auth
      → in_transaction s.state ≡ false
      → LeftOutside w (handle_read auth store line w s)
  unfolding handle_read process_command
  handle_read-LeftOutside line w s no_one q =
      let cmd = Command.parse line in
      let done =
        finish-LeftOutside (is_quit cmd.type) w _ (execute-Outside cmd.type cmd w s no_one q) in
      ground (arith, done)

  -- Where no credentials are accepted, a session that is in no transaction comes into none, whatever
  -- lines are sent, nothing outside of it changes, and no line throws.
  pub run_lines-LeftOutside :
      (lines : List Text) (w : W) (s : Pop3Session)
      → RefusesAll auth
      → in_transaction s.state ≡ false
      → LeftOutside w (run_lines auth store lines w s)
  unfolding run_lines
  run_lines-LeftOutside [] w s no_one q = (refl, q)
  run_lines-LeftOutside (line ∷ rest) w s no_one q =
      let step = handle_read-LeftOutside line w s no_one q in
      elim (Option-cases (handle_read auth store line w s)) [
        | inl thrown ↦ absurd (subst (LeftOutside w) thrown step)
        | inr ((v, u), next) ↦
            let (same, closed) = subst (LeftOutside w) next step in
            let after = run_lines-LeftOutside rest v u no_one closed in
            let onward = sym (run_lines-next auth store line rest w v s u next) in
            subst (LeftOutside w) onward
              (subst (λ x. LeftOutside x (run_lines auth store rest v u)) same after)
      ]
