-- ===== src/Pop3/Answers.antt =====
-- The texts of the replies that show messages, of pop3/src/pop3_commands.cpp, and `get_message_top`
-- of pop3/src/pop3_session.cpp.
use email_server.Base.{
  ℕ, zero, suc, ◌+◌, List, [], ◌∷◌, ◌++◌, Option, none, some, ltb, ◌==◌, if◌then◌else◌, length,
  take, drop,
}
use email_server.Pop3.Response.{okay, error}
use email_server.Pop3.{Pop3Session, MessageInfo, get_message, total_messages, total_size}
use email_server.Text.Numbers.{to_string}
use email_server.Text.Stream.{lines}
use email_server.Text.{Text, codes, crlf, find_text, strip_cr}

abbrev pub no_such_message : Text
no_such_message = error (codes "No such message")

-- A message that is there and not marked.
unfoldable pub present : ℕ → Pop3Session → Option MessageInfo
present number s = elim (get_message number s) [
  | none ↦ none
  | some info ↦ if info.deleted then none else some info
]

-- The answer about one message, by what is shown of it.
unfoldable pub show_one : (MessageInfo → Text) → Option MessageInfo → Text
show_one shown none = no_such_message
show_one shown (some info) = okay (to_string info.number ++ (b' ' ∷ shown info))

-- The lines of a listing, for the messages whose own flag is not set.
unfoldable pub listing : (MessageInfo → Text) → List MessageInfo → Text
listing shown [] = []
listing shown (m ∷ ms) =
    (if m.deleted then [] else to_string m.number ++ (b' ' ∷ (shown m ++ crlf))) ++ listing shown ms

abbrev pub shown_size : MessageInfo → Text
shown_size m = to_string m.size

abbrev pub shown_id : MessageInfo → Text
shown_id m = m.unique_id

unfoldable pub list_all : Pop3Session → Text
unfolding listing
list_all s =
    okay (
      to_string (total_messages s)
      ++ (codes " messages (" ++ (to_string (total_size s) ++ codes " octets)")))
    ++ (crlf ++ (listing shown_size s.messages ++ b'.' ∷ []))

unfoldable pub uidl_all : Pop3Session → Text
unfolding listing
uidl_all s = okay [] ++ (crlf ++ (listing shown_id s.messages ++ b'.' ∷ []))

-- One line of a message: a dot is put in front of a line that begins with one, and the end of the
-- line is made a return and a newline.
unfoldable pub stuffed_line : Text → Text
stuffed_line [] = crlf
stuffed_line (c ∷ s) = (if c == b'.' then b'.' ∷ [] else []) ++ (strip_cr (c ∷ s) ++ crlf)

unfoldable pub stuffed_body : List Text → Text
unfolding stuffed_line
stuffed_body [] = []
stuffed_body (line ∷ rest) = stuffed_line line ++ stuffed_body rest

-- The reply with a text of several lines.
unfoldable pub multi_line : Text → Text → Text
unfolding stuffed_body
multi_line status content = status ++ (crlf ++ (stuffed_body (lines content) ++ b'.' ∷ []))

unfoldable pub show_content : Option Text → Text
unfolding multi_line
show_content none = error (codes "Unable to retrieve message")
show_content (some content) =
    multi_line (okay (to_string (length content) ++ codes " octets")) content

-- The first lines of a body, each with its end.
unfoldable pub body_lines : ℕ → List Text → Text
body_lines zero rest = []
body_lines (suc n) [] = []
body_lines (suc n) (line ∷ rest) = strip_cr line ++ (crlf ++ body_lines n rest)

-- The place of the empty line behind the header.
unfoldable pub header_end : Text → Option ℕ
header_end content = elim (find_text (crlf ++ crlf) content) [
  | some i ↦ some i
  | none ↦ find_text (b'\n' ∷ b'\n' ∷ []) content
]

-- The header and the first lines of the body; a body that would begin behind the end throws.
unfoldable pub top_from : Option ℕ → ℕ → Text → Option Text
unfolding body_lines
top_from none count content = some content
top_from (some end) count content =
    if count == 0
    then some (take (end + 2) content)
    else if ltb (length content) (end + 4)
    then none
    else some
        (take (end + 2) content ++ (crlf ++ body_lines count (lines (drop (end + 4) content))))

-- The reply to TOP.
unfoldable pub show_top : Option Text → ℕ → Option Text
unfolding header_end top_from multi_line
show_top none count = some (error (codes "Unable to retrieve message"))
show_top (some content) count = elim (top_from (header_end content) count content) [
  | none ↦ none
  | some shown ↦ some (multi_line (okay []) shown)
]
