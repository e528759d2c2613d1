-- ===== src/Smtp/Message.antt =====
-- A message on its way: the lines that a relay sends, and what a session keeps of them.
use mathlib.Core.List.{map-map}
use email_server.Base.{
  ◌+◌, ◌≤◌, ◌<◌, ◌≡◌, refl, sym, ap, ◌∙◌, true, false, List, [], ◌∷◌, ◌++◌, map, arith, length,
  length-append, All, append_assoc, append-nil,
}
use email_server.Smtp.Host.{Host, Relay}
use email_server.Smtp.Protocol.{
  is_receiving, is_waiting, unstuff, is_end_of_data, append_line, finish_data, end_data,
  process_data_line, process_command, on_data, handle_read, run_lines,
}
use email_server.Smtp.Relay.{stuff, message_lines}
use email_server.Smtp.Reply.{make, exceeded_storage}
use email_server.Net
use email_server.Smtp.{SmtpSession, send_line}
use email_server.Text.Laws.{NoNewline, join, map-strip_cr-lines}
use email_server.Text.Stream.{lines}
use email_server.Text.{Text, codes, crlf, strip_cr}

unstuff-stuff : (l : Text) → unstuff (stuff l) ≡ l
unfolding unstuff stuff
unstuff-stuff [] = refl
unstuff-stuff (c ∷ s) = ground arith

-- No line of a message is taken for its end.
is_end_of_data-stuff : (l : Text) → is_end_of_data (stuff l) ≡ false
unfolding is_end_of_data stuff
is_end_of_data-stuff [] = refl
is_end_of_data-stuff (c ∷ []) = ground arith
is_end_of_data-stuff (c ∷ d ∷ s) = ground arith

message_lines-join : (ls : List Text) → All NoNewline ls → message_lines (join ls) ≡ map stuff ls
unfolding message_lines
message_lines-join ls h =
    sym (map-map stuff strip_cr (lines (join ls))) ∙ ap (map stuff) (map-strip_cr-lines ls h)

abbrev pub dot : Text
dot = b'.' ∷ []

abbrev pub buffered : Text → SmtpSession → SmtpSession
buffered text s = record s { data_buffer = s.data_buffer ++ text }

abbrev pub given_up : SmtpSession → SmtpSession
given_up s = finish_data (make exceeded_storage (codes "Message too large")) s

module _ {W : Type 0} (h : Host) (r : Relay W) where
  handle_read-stuff :
      (l : Text) (s : SmtpSession) (w : W)
      → is_receiving s.state ≡ true
      → s.stopped ≡ false
      → length s.data_buffer + length l + 2 ≤ s.max_message_size
      → handle_read h r (stuff l) s w ≡ (w, buffered (l ++ crlf) s)
  unfolding handle_read on_data process_data_line append_line
  handle_read-stuff l s w q o n = ground (arith, is_end_of_data-stuff l, unstuff-stuff l)

  run_lines-append :
      (xs ys : List Text) (s : SmtpSession) (w : W)
      → run_lines h r (xs ++ ys) s w
        ≡ (let (w', s') = run_lines h r xs s w in run_lines h r ys s' w')
  unfolding run_lines
  run_lines-append [] ys s w = refl
  run_lines-append (x ∷ xs) ys s w =
      let after = handle_read h r x s w in run_lines-append xs ys after.1 after.0

  run_lines-stuff :
      (ls : List Text) (s : SmtpSession) (w : W)
      → is_receiving s.state ≡ true
      → s.stopped ≡ false
      → length s.data_buffer + length (join ls) ≤ s.max_message_size
      → run_lines h r (map stuff ls) s w ≡ (w, buffered (join ls) s)
  unfolding run_lines
  run_lines-stuff [] s w q o n = simp append-nil
  run_lines-stuff (l ∷ ls) s w q o n =
      let whole = length-append (l ++ crlf) (join ls) in
      let line = length-append l crlf in
      let kept = length-append s.data_buffer (l ++ crlf) in
      ap (λ (p : W × SmtpSession). run_lines h r (map stuff ls) p.1 p.0)
        (handle_read-stuff l s w q o (omega (arith, whole, line)))
      ∙ run_lines-stuff ls (buffered (l ++ crlf) s) w q o (omega (arith, whole, line, kept))
      ∙ simp append_assoc

  -- A session that receives a message and is not stopped takes lines that are sent stuffed, and then
  -- the single dot, as those lines, each with its end, if they fit: no line ends the message early,
  -- and no dot is lost or added.
  pub run_lines-message :
      (ls : List Text) (s : SmtpSession) (w : W)
      → is_receiving s.state ≡ true
      → s.stopped ≡ false
      → length s.data_buffer + length (join ls) ≤ s.max_message_size
      → run_lines h r (map stuff ls ++ dot ∷ []) s w ≡ end_data h r (buffered (join ls) s) w
  unfolding run_lines handle_read on_data process_data_line is_end_of_data
  run_lines-message ls s w q o n =
      run_lines-append (map stuff ls) (dot ∷ []) s w
      ∙ ap (λ (p : W × SmtpSession). run_lines h r (dot ∷ []) p.1 p.0)
          (run_lines-stuff ls s w q o n)
      ∙ ground arith

  -- What a relay sends for a content of whole lines is what a session at the other end, which
  -- receives a message and is not stopped, hands on, byte for byte, if it fits.
  pub run_lines-message_lines :
      (ls : List Text) (s : SmtpSession) (w : W)
      → All NoNewline ls
      → is_receiving s.state ≡ true
      → s.stopped ≡ false
      → length s.data_buffer + length (join ls) ≤ s.max_message_size
      → run_lines h r (message_lines (join ls) ++ dot ∷ []) s w
        ≡ end_data h r (buffered (join ls) s) w
  run_lines-message_lines ls s w p q o n =
      rw (message_lines-join ls p) (run_lines-message ls s w q o n)

  handle_read-overflow :
      (line : Text) (s : SmtpSession) (w : W)
      → is_receiving s.state ≡ true
      → s.stopped ≡ false
      → is_end_of_data line ≡ false
      → s.max_message_size < length s.data_buffer + length (unstuff line) + 2
      → handle_read h r line s w ≡ (w, given_up s)
  unfolding handle_read on_data process_data_line append_line
  handle_read-overflow line s w q o e n = ground arith

  handle_read-given_up :
      (line : Text) (s : SmtpSession) (w : W)
      → is_waiting s.auth_state ≡ false
      → s.stopped ≡ false
      → handle_read h r line (given_up s) w ≡ (w, process_command h line (given_up s))
  unfolding handle_read on_data finish_data send_line Net.send_line
  handle_read-given_up line s w a o = ground arith

  -- Where a line, not the single dot, makes a message too long, and no answer of a login is awaited,
  -- the message is given up, and the line behind it is carried out as a command.
  pub run_lines-overflow :
      (line next : Text) (s : SmtpSession) (w : W)
      → is_receiving s.state ≡ true
      → is_waiting s.auth_state ≡ false
      → s.stopped ≡ false
      → is_end_of_data line ≡ false
      → s.max_message_size < length s.data_buffer + length (unstuff line) + 2
      → run_lines h r (line ∷ next ∷ []) s w ≡ (w, process_command h next (given_up s))
  run_lines-overflow line next s w q a o e n =
      unfold run_lines in
      ap (λ (p : W × SmtpSession). run_lines h r (next ∷ []) p.1 p.0)
        (handle_read-overflow line s w q o e n)
      ∙ handle_read-given_up next s w a o
