-- ===== src/Imap/Returns.antt =====
-- FETCH and STORE with a first word that is no sequence set (imap/src/imap_commands.cpp).
use email_server.Auth.{Authenticator}
use email_server.Base.{
  ℕ, ◌≤◌, refl, take, inl, inr, Option-cases, List-cases, ◌≡◌, Bool, true, false, List, [], ◌∷◌,
  none, arith,
}
use email_server.Imap.Command
use email_server.Imap.Command.{Command, CommandType}
use email_server.Imap.Handlers.Fetching.{handle_fetch, with_set}
use email_server.Imap.Handlers.Selected.{handle_store}
use email_server.Imap.Handlers.{is_selected}
use email_server.Imap.Protocol.{
  execute, is_unknown, process_command, finish, handle_read, run_lines,
}
use email_server.Imap.Sequence
use email_server.Imap.Sequence.{
  u32_max, number_or, single, parse_range, range_from, tokens, ranges, cons_range,
}
use email_server.Imap.Storage.{Store}
use email_server.Imap.{ImapSession}
use email_server.Text.Numbers.{signed, magnitude}
use email_server.Text.Stream.{next_word, stoul, cons_head, drop_while}
use email_server.Text.{Text, text_eq, is_space, find_if, find_char}

-- A byte that begins no sequence set: a letter, say.
abbrev pub IsLetter : ℕ → Type 0
IsLetter c = b'A' ≤ c

stoul-letter : (c : ℕ) (s : Text) → IsLetter c → stoul (c ∷ s) ≡ none
unfolding stoul signed magnitude drop_while is_space
stoul-letter c s h = ground arith

number_or-letter : (star c : ℕ) (s : Text) → IsLetter c → number_or star (c ∷ s) ≡ none
unfolding number_or text_eq
number_or-letter star c s h = ground (arith, stoul-letter c s h)

single-letter : (c : ℕ) (s : Text) → IsLetter c → single (c ∷ s) ≡ none
unfolding single text_eq
single-letter c s h = ground (arith, stoul-letter c s h)

parse_range-letter : (c : ℕ) (s : Text) → IsLetter c → parse_range (c ∷ s) ≡ none
unfolding parse_range range_from find_if
parse_range-letter c s h = elim (Option-cases (find_char b':' s)) [
  | inl e ↦ ground (arith, e, single-letter c s h)
  | inr (i, e) ↦ ground (arith, e, number_or-letter u32_max c (take i s) h)
]

parse-letter : (c : ℕ) (s : Text) → IsLetter c → Sequence.parse (c ∷ s) ≡ none
unfolding Sequence.parse tokens ranges cons_range cons_head
parse-letter c s h = elim (List-cases (tokens s)) [
  | inl e ↦ ground (arith, e, parse_range-letter c [] h)
  | inr (t, ts, e) ↦ ground (arith, e, parse_range-letter c (c ∷ t) h, parse_range-letter c t h)
]

-- The commands whose handlers read a sequence set with `>>` and nothing around them.
abbrev pub takes_set : CommandType → Bool
takes_set CommandType.fetch = true
takes_set CommandType.store = true
takes_set _ = false

module _ {W : Type 0} (auth : Authenticator) (store : Store W) (put_time : ℕ → Text) where
  execute-thrown :
      (t : CommandType) (cmd : Command) (w : W) (s : ImapSession) (c : ℕ) (more : Text)
      → takes_set t ≡ true
      → is_selected s.state ≡ true
      → (next_word cmd.arguments).0 ≡ c ∷ more
      → IsLetter c
      → execute auth store put_time t cmd w s ≡ none
  unfolding execute handle_fetch handle_store with_set
  execute-thrown CommandType.fetch cmd w s c more n q e h = ground (arith, e, parse-letter c more h)
  execute-thrown CommandType.store cmd w s c more n q e h = ground (arith, e, parse-letter c more h)
  execute-thrown _ cmd w s c more n q e h = cc

  takes_set-known : (t : CommandType) → takes_set t ≡ true → is_unknown t ≡ false
  takes_set-known CommandType.unknown n = cc
  takes_set-known _ n = refl

  handle_read-thrown :
      (line : Text) (w : W) (s : ImapSession) (c : ℕ) (more : Text)
      → s.stopped ≡ false
      → takes_set (Command.parse line).type ≡ true
      → is_selected s.state ≡ true
      → (next_word (Command.parse line).arguments).0 ≡ c ∷ more
      → IsLetter c
      → handle_read auth store put_time line w s ≡ none
  unfolding handle_read process_command finish
  handle_read-thrown line w s c more o n q e h =
      let cmd = Command.parse line in
      ground (arith, execute-thrown cmd.type cmd w s c more n q e h, takes_set-known cmd.type n)

  -- With a mailbox selected, a FETCH or STORE whose first word begins with a letter leaves the session
  -- by an exception, which no function on the way to `handle_read` catches, and no line behind it is
  -- read.
  pub run_lines-thrown :
      (line : Text) (rest : List Text) (w : W) (s : ImapSession) (c : ℕ) (more : Text)
      → s.stopped ≡ false
      → takes_set (Command.parse line).type ≡ true
      → is_selected s.state ≡ true
      → (next_word (Command.parse line).arguments).0 ≡ c ∷ more
      → IsLetter c
      → run_lines auth store put_time (line ∷ rest) w s ≡ none
  unfolding run_lines
  run_lines-thrown line rest w s c more o n q e h =
      rw (handle_read-thrown line w s c more o n q e h, run_lines) refl
