-- ===== src/Pop3/Retrieval.antt =====
-- What a client reads in the reply to RETR.
use mathlib.Core.List.{map-map, append_assoc}
use mathlib.Core.Option
use email_server.Base.{
  ℕ, ◌≡◌, ◌≢◌, refl, sym, ap, ◌∙◌, false, List, [], ◌∷◌, ◌++◌, map, Option, none, some, arith, All,
  All-append, is_empty, if-both, if-each, ◌==◌, if◌then◌else◌, length,
}
use email_server.Pop3.Answers.{present, stuffed_line, stuffed_body, multi_line, show_content}
use email_server.Pop3.Handlers.{retrieve}
use email_server.Pop3.Response.{okay}
use email_server.Pop3.Storage.{Store}
use email_server.Pop3.{Pop3Session, MessageInfo, get_message_content}
use email_server.Smtp.Relay.{stuff, message_lines}
use email_server.Text.Laws.{NoNewline, join, map-strip_cr-lines}
use email_server.Text.Numbers.{to_string, to_string-NoNewline}
use email_server.Text.Stream.{lines, cons_head}
use email_server.Text.{Text, codes, crlf, text_eq, strip_cr, ends_with_byte, pop_back}

-- A client of RFC 1939 takes a line that is a single dot as the end, and takes a dot off the
-- front of any other line that begins with one.
abbrev undotted : Text → Text
undotted [] = []
undotted (c ∷ s) = if c == b'.' then s else c ∷ s

abbrev until_dot : List Text → Option (List Text)
until_dot [] = none
until_dot (l ∷ ls) =
    if text_eq l (b'.' ∷ []) then some [] else Option.map (◌∷◌ (undotted l)) (until_dot ls)

-- The status line, and the text behind it.
abbrev pub read_reply : List Text → Option (Text × List Text)
read_reply [] = none
read_reply (status ∷ ls) = Option.map (λ text. (status, text)) (until_dot ls)

undotted-stuff : (l : Text) → undotted (stuff l) ≡ l
unfolding stuff
undotted-stuff [] = refl
undotted-stuff (c ∷ s) = ground arith

text_eq-stuff : (l : Text) → text_eq (stuff l) (b'.' ∷ []) ≡ false
unfolding stuff text_eq
text_eq-stuff [] = refl
text_eq-stuff (c ∷ []) = ground arith
text_eq-stuff (c ∷ d ∷ s) = ground arith

until_dot-stuff : (ls : List Text) → until_dot (map stuff ls ++ (b'.' ∷ []) ∷ []) ≡ some ls
unfolding text_eq
until_dot-stuff [] = refl
until_dot-stuff (l ∷ ls) = rw (text_eq-stuff l, undotted-stuff l, until_dot-stuff ls) refl

strip_cr-cons : (c d : ℕ) (s : Text) → strip_cr (c ∷ d ∷ s) ≡ c ∷ strip_cr (d ∷ s)
unfolding strip_cr ends_with_byte pop_back
strip_cr-cons c d s = ground arith

stuffed_line-stuff : (l : Text) → stuffed_line l ≡ stuff (strip_cr l) ++ crlf
unfolding stuffed_line stuff strip_cr ends_with_byte pop_back
stuffed_line-stuff [] = refl
stuffed_line-stuff (c ∷ []) = ground arith
stuffed_line-stuff (c ∷ d ∷ s) = rw (strip_cr-cons c d s) (ground arith)

stuffed_body-join : (ls : List Text) → stuffed_body ls ≡ join (map (λ l. stuff (strip_cr l)) ls)
unfolding stuffed_body
stuffed_body-join [] = refl
stuffed_body-join (l ∷ ls) = rw (stuffed_line-stuff l, stuffed_body-join ls) refl

join-append : (ls ms : List Text) → join (ls ++ ms) ≡ join ls ++ join ms
join-append [] ms = refl
join-append (l ∷ ls) ms = rw (join-append ls ms) (simp append_assoc)

-- The reply, with the end that sending it adds, is made of these lines.
multi_line-join :
    (status content : Text)
    → multi_line status content ++ crlf
      ≡ join (status ∷ (message_lines content ++ (b'.' ∷ []) ∷ []))
unfolding multi_line message_lines
multi_line-join status content =
    let body = stuffed_body-join (lines content) in
    let apart = join-append (message_lines content) ((b'.' ∷ []) ∷ []) in
    rw (body, apart) (simp append_assoc)

NoNewline-pop_back : (l : Text) → NoNewline l → NoNewline (pop_back l)
unfolding pop_back
NoNewline-pop_back [] h = tt
NoNewline-pop_back (c ∷ []) h = tt
NoNewline-pop_back (c ∷ d ∷ s) h = (h.0, NoNewline-pop_back (d ∷ s) h.1)

NoNewline-strip_cr : (l : Text) → NoNewline l → NoNewline (strip_cr l)
unfolding strip_cr
NoNewline-strip_cr l h = if-both NoNewline (ends_with_byte b'\r' l) (NoNewline-pop_back l h) h

NoNewline-stuff : (l : Text) → NoNewline l → NoNewline (stuff l)
unfolding stuff
NoNewline-stuff [] h = tt
NoNewline-stuff (c ∷ s) h = if-both NoNewline (c == b'.') ((λ e. omega arith), h) h

cons_head-NoNewline :
    (c : ℕ) (ls : List Text) → c ≢ b'\n' → All NoNewline ls → All NoNewline (cons_head c ls)
unfolding cons_head
cons_head-NoNewline c [] h hs = ((h, tt), tt)
cons_head-NoNewline c (l ∷ ls) h hs = ((h, hs.0), hs.1)

lines-NoNewline : (content : Text) → All NoNewline (lines content)
unfolding lines
lines-NoNewline [] = tt
lines-NoNewline (c ∷ s) =
    if-each (All NoNewline) (c == b'\n') (λ _. (tt, lines-NoNewline s))
      (λ other. cons_head-NoNewline c (lines s) (ground arith) (lines-NoNewline s))

message_lines-NoNewline :
    (ls : List Text) → All NoNewline ls → All NoNewline (map (λ l. stuff (strip_cr l)) ls)
message_lines-NoNewline [] h = tt
message_lines-NoNewline (l ∷ ls) h =
    (NoNewline-stuff (strip_cr l) (NoNewline-strip_cr l h.0), message_lines-NoNewline ls h.1)

-- What a client takes from a reply of several lines.
read_reply-multi_line :
    (status content : Text)
    → NoNewline status
    → read_reply (map strip_cr (lines (multi_line status content ++ crlf)))
      ≡ some (status, map strip_cr (lines content))
unfolding message_lines
read_reply-multi_line status content h =
    let shown = message_lines content in
    let behind : All NoNewline (shown ++ (b'.' ∷ []) ∷ []) =
      All-append NoNewline shown ((b'.' ∷ []) ∷ [])
        (message_lines-NoNewline (lines content) (lines-NoNewline content))
        (((λ e. omega arith), tt), tt) in
    rw
      (
        multi_line-join status content,
        map-strip_cr-lines (status ∷ (shown ++ (b'.' ∷ []) ∷ [])) (h, behind),
      )
      (ap (Option.map (λ text. (status, text))) (
        ap (λ ls. until_dot (ls ++ (b'.' ∷ []) ∷ [])) (sym (map-map stuff strip_cr (lines content)))
        ∙ until_dot-stuff (map strip_cr (lines content))))

okay-NoNewline : (message : Text) → NoNewline message → NoNewline (okay message)
unfolding okay codes
okay-NoNewline message h = if-both NoNewline (is_empty message) (ground arith) (ground (arith, h))

abbrev pub octets : Text → Text
octets content = to_string (length content) ++ codes " octets"

octets-NoNewline : (content : Text) → NoNewline (octets content)
unfolding codes
octets-NoNewline content =
    All-append (λ c. c ≢ b'\n') (to_string (length content)) (codes " octets")
      (to_string-NoNewline (length content)) (ground arith)

-- RETR of a message that is there and not marked: the session is left as it is, and a client finds
-- the number of octets and then the lines of the content as the store has them, each without its
-- end, whatever dots and ends of line the content has; nothing in it is taken for the end.
pub retrieve-read_reply :
    {W : Type 0} (store : Store W) (w : W) (number : ℕ) (s : Pop3Session) (info : MessageInfo)
    (content : Text)
    → present number s ≡ some info
    → get_message_content store w number s ≡ some content
    → (text : Text) × (retrieve store w (some number) s ≡ some (s, text))
      × (read_reply (map strip_cr (lines (text ++ crlf)))
          ≡ some (okay (octets content), map strip_cr (lines content)))
unfolding retrieve show_content
retrieve-read_reply store w number s info content there found = (
  multi_line (okay (octets content)) content,
  ground arith,
  read_reply-multi_line (okay (octets content)) content
      (okay-NoNewline (octets content) (octets-NoNewline content)),
)
