-- ===== src/Imap/Fetch.antt =====
-- `FetchItem` of imap/include/imap_parser.hpp and `parse_fetch_items` of imap/src/imap_parser.cpp.
-- The field `partial`, which the parser never fills, is left out.
use email_server.Base.{◌+◌, ◌-◌, List, [], ◌∷◌, Option, none, some, if◌then◌else◌}
use email_server.Imap.Strings.{without_parentheses}
use email_server.Text.Stream.{words}
use email_server.Text.{
  Text, codes, text_eq, upper, starts_with, find_if, find_char, find_from, substr,
}

pub data FetchType : Type 0 where
  all fast full envelope flags internaldate rfc822 rfc822_header rfc822_size rfc822_text body
        body_peek bodystructure uid :
      FetchType

pub record FetchItem : Type 0 where
  pub type : FetchType
  pub section : Text

abbrev whole : FetchType → Option FetchItem
whole type = some (record { type = type; section = [] })

-- What stands between the first bracket and the next closing one.
unfoldable pub section_of : Text → Text
unfolding find_if find_from
section_of token = elim (find_char b'[' token) [
  | none ↦ []
  | some open_bracket ↦ elim (find_from b']' token open_bracket) [
    | none ↦ []
    | some end_bracket ↦ substr token (open_bracket + 1) (end_bracket - open_bracket - 1)
  ]
]

-- One word, in upper case; `none` is an unknown item, which is passed over.
unfoldable pub fetch_item : Text → Option FetchItem
unfolding section_of
fetch_item token =
    if text_eq token (codes "ALL")
    then whole all
    else if text_eq token (codes "FAST")
    then whole fast
    else if text_eq token (codes "FULL")
    then whole full
    else if text_eq token (codes "ENVELOPE")
    then whole envelope
    else if text_eq token (codes "FLAGS")
    then whole flags
    else if text_eq token (codes "INTERNALDATE")
    then whole internaldate
    else if text_eq token (codes "RFC822")
    then whole rfc822
    else if text_eq token (codes "RFC822.HEADER")
    then whole rfc822_header
    else if text_eq token (codes "RFC822.SIZE")
    then whole rfc822_size
    else if text_eq token (codes "RFC822.TEXT")
    then whole rfc822_text
    else if starts_with (codes "BODY.PEEK") token
    then some (record { type = body_peek; section = section_of token })
    else if starts_with (codes "BODY") token
    then some (record { type = body; section = section_of token })
    else if text_eq token (codes "BODYSTRUCTURE")
    then whole bodystructure
    else if text_eq token (codes "UID")
    then whole uid
    else none

unfoldable pub fetch_items : List Text → List FetchItem
unfolding fetch_item
fetch_items [] = []
fetch_items (token ∷ rest) = elim (fetch_item (upper token)) [
  | none ↦ fetch_items rest
  | some item ↦ item ∷ fetch_items rest
]

-- `IMAPParser::parse_fetch_items`.
unfoldable pub parse_fetch_items : Text → List FetchItem
unfolding fetch_items without_parentheses words
parse_fetch_items s = fetch_items (words (without_parentheses s))
