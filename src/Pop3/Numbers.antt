-- ===== src/Pop3/Numbers.antt =====
-- The number that a client names: one that is none, and one of a message that is marked.
use email_server.Auth.{Authenticator}
use email_server.Base.{
  ℕ, zero, suc, ◌-◌, ap, sym, ◌∙◌, [], ◌++◌, All, get_elem?, append_assoc, if◌then◌else◌, ◌≡◌, refl,
  Bool, true, false, List, ◌∷◌, none, some, arith, is_empty,
}
use email_server.Pop3.Access.{run_lines-thrown}
use email_server.Pop3.Command
use email_server.Pop3.Command.{Command, CommandType}
use email_server.Pop3.Answers.{
  shown_id, shown_size, list_all, uidl_all, listing, present, show_one, no_such_message,
}
use email_server.Pop3.Handlers.{
  handle_list, handle_retr, handle_dele, handle_uidl, handle_one, retrieve, delete_number,
}
use email_server.Pop3.Marks.{mark_deleted-totals, get_message-inversion}
use email_server.Pop3.Protocol.{
  is_unknown, keeping, execute, finish, process_command, handle_read, run_lines,
}
use email_server.Pop3.Storage.{Store}
use email_server.Pop3.{Pop3Session, MessageInfo, transaction, get_message, mark_deleted}
use email_server.Text.Stream.{stoul}
use email_server.Text.Numbers.{to_string}
use email_server.Text.{Text, crlf}

-- The commands that take the number of a message as their argument.
abbrev pub takes_number : CommandType → Bool
takes_number CommandType.list = true
takes_number CommandType.retr = true
takes_number CommandType.dele = true
takes_number CommandType.uidl = true
takes_number _ = false

takes_number-known : (t : CommandType) → takes_number t ≡ true → is_unknown t ≡ false
takes_number-known CommandType.unknown n = cc
takes_number-known _ n = refl

module _ {W : Type 0} (auth : Authenticator) (store : Store W) where
  execute-throws :
      (t : CommandType) (cmd : Command) (w : W) (s : Pop3Session)
      → takes_number t ≡ true
      → s.state ≡ transaction
      → is_empty cmd.argument ≡ false
      → stoul cmd.argument ≡ none
      → execute auth store t cmd w s ≡ none
  unfolding execute keeping handle_list handle_retr handle_dele handle_uidl handle_one retrieve
      delete_number
  execute-throws CommandType.list cmd w s n q e x = ground arith
  execute-throws CommandType.retr cmd w s n q e x = ground arith
  execute-throws CommandType.dele cmd w s n q e x = ground arith
  execute-throws CommandType.uidl cmd w s n q e x = ground arith
  execute-throws _ cmd w s n q e x = cc

  handle_read-throws :
      (line : Text) (w : W) (s : Pop3Session)
      → s.stopped ≡ false
      → s.state ≡ transaction
      → takes_number (Command.parse line).type ≡ true
      → is_empty (Command.parse line).argument ≡ false
      → stoul (Command.parse line).argument ≡ none
      → handle_read auth store line w s ≡ none
  unfolding handle_read process_command finish
  handle_read-throws line w s o q n e x =
      let cmd = Command.parse line in
      ground (arith, execute-throws cmd.type cmd w s n q e x, takes_number-known cmd.type n)

  -- In a transaction, a LIST, RETR, DELE or UIDL whose argument begins with no number, or with one
  -- that does not fit in 64 bits, leaves the session by an exception, and no line behind it is
  -- read.
  pub run_lines-throws :
      (line : Text) (rest : List Text) (w : W) (s : Pop3Session)
      → s.stopped ≡ false
      → s.state ≡ transaction
      → takes_number (Command.parse line).type ≡ true
      → is_empty (Command.parse line).argument ≡ false
      → stoul (Command.parse line).argument ≡ none
      → run_lines auth store (line ∷ rest) w s ≡ none
  run_lines-throws line rest w s o q n e x =
      run_lines-thrown auth store line rest w s (handle_read-throws line w s o q n e x)

-- A text among others.
abbrev pub Holds : Text → Text → Type 0
Holds line text = (before : Text) × (after : Text) × (text ≡ before ++ (line ++ after))

-- The line of a listing for one message.
abbrev pub line_of : (MessageInfo → Text) → MessageInfo → Text
line_of shown m = to_string m.number ++ (b' ' ∷ (shown m ++ crlf))

listing-Holds :
    (shown : MessageInfo → Text) (ms : List MessageInfo) (i : ℕ) (m : MessageInfo)
    → get_elem? ms i ≡ some m
    → m.deleted ≡ false
    → Holds (line_of shown m) (listing shown ms)
unfolding listing
listing-Holds shown [] i m e h = cc
listing-Holds shown (n ∷ ms) zero m e h = ([], listing shown ms, ground arith)
listing-Holds shown (n ∷ ms) (suc i) m e h =
    let (before, after, same) = listing-Holds shown ms i m e h in
    let first = if n.deleted then [] else line_of shown n in
    (first ++ before, after, rw same (sym (append_assoc first before _)))

Holds-front : (line front text : Text) → Holds line text → Holds line (front ++ text)
Holds-front line front text (before, after, same) =
    (front ++ before, after, rw same (sym (append_assoc front before (line ++ after))))

Holds-back : (line text back : Text) → Holds line text → Holds line (text ++ back)
Holds-back line text back (before, after, same) = (
  before,
  after ++ back,
  rw same
      (append_assoc before (line ++ after) back ∙ ap (◌++◌ before) (append_assoc line after back)),
)

own_flag :
    (ms : List MessageInfo) (i : ℕ) (m : MessageInfo)
    → All (λ n. n.deleted ≡ false) ms
    → get_elem? ms i ≡ some m
    → m.deleted ≡ false
own_flag [] i m h e = cc
own_flag (n ∷ ms) zero m h e = ground arith
own_flag (n ∷ ms) (suc i) m h e = own_flag ms i m h.1 e

mark_deleted-messages :
    (number : ℕ) (s : Pop3Session) → (mark_deleted number s).0.messages ≡ s.messages
unfolding mark_deleted
mark_deleted-messages number s = ground arith

-- After DELE of a message that is there, neither marked nor loaded with a flag of its own, LIST and
-- UIDL without a number still hold its line, while LIST and UIDL with its number say that there is
-- no such message.
pub listing-mark_deleted :
    (number : ℕ) (s : Pop3Session) (info : MessageInfo)
    → get_message number s ≡ some info
    → info.deleted ≡ false
    → All (λ m. m.deleted ≡ false) s.messages
    → let t = (mark_deleted number s).0 in
      Holds (line_of shown_size info) (list_all t)
      × Holds (line_of shown_id info) (uidl_all t)
      × (handle_one shown_size (some number) t ≡ some (t, no_such_message))
      × (handle_one shown_id (some number) t ≡ some (t, no_such_message))
unfolding handle_one present show_one uidl_all list_all
listing-mark_deleted number s info found unmarked own =
    let (done, count, size, now) = mark_deleted-totals number s info found unmarked in
    let (stored, range, positive, at, e) = get_message-inversion number s found in
    let t = (mark_deleted number s).0 in
    let flag = own_flag s.messages (number - 1) stored own at in
    let kept : t.messages ≡ s.messages = mark_deleted-messages number s in
    let held =
      λ (shown : MessageInfo → Text). listing-Holds shown s.messages (number - 1) stored at flag in
    let framed = λ (status line body : Text) (h : Holds line body).
      Holds-front line status (crlf ++ (body ++ b'.' ∷ []))
        (Holds-front line crlf (body ++ b'.' ∷ []) (Holds-back line body (b'.' ∷ []) h)) in
    (
      rw (kept, e) (framed _ _ _ (held shown_size)),
      rw (kept, e) (framed _ _ _ (held shown_id)),
      ground (arith, now),
      ground (arith, now),
    )
