-- ===== src/Imap/Handlers/Fetching.antt =====
-- `handle_fetch` of imap/src/imap_commands.cpp, and `format_internal_date` of
-- imap/src/imap_parser.cpp, where `put_time` is a time as `localtime_r` and `std::put_time` write it
-- with the format "%d-%b-%Y %H:%M:%S %z".
use email_server.Base.{
  ℕ, not, List, [], ◌∷◌, ◌++◌, Option, none, some, if◌then◌else◌, is_empty, length,
}
use email_server.Imap.Command.{Command}
use email_server.Imap.Fetch.{FetchType, FetchItem, parse_fetch_items}
use email_server.Imap.Handlers.{Outcome, reply, is_selected}
use email_server.Imap.Messages.{get_message_content, get_message_headers}
use email_server.Imap.Response
use email_server.Imap.Sequence
use email_server.Imap.Sequence.{Range, contains}
use email_server.Imap.Storage.{Store}
use email_server.Imap.Strings.{format_flags}
use email_server.Imap.{ImapSession, CachedMessage}
use email_server.Text.Numbers.{to_string}
use email_server.Text.Stream.{next_word, skip_ws, first_line}
use email_server.Text.{Text, codes, crlf}

-- A text behind its name and its size; nothing where there is no text.
unfoldable pub literal : Text → Option (Option Text) → Option Text
literal name none = none
literal name (some none) = some []
literal name (some (some text)) =
    some (name ++ (codes " {" ++ (to_string (length text) ++ (codes "}" ++ (crlf ++ text)))))

-- `IMAPParser::parse_sequence_set`, and what the set is used for: `none` is the exception.
unfoldable pub with_set {ℓ} : {A : Type ℓ} → Text → A → (List Range → Option A) → Option A
with_set str invalid use_set =
    if is_empty str
    then some invalid
    else elim (Sequence.parse str) [ none ↦ none | some set ↦ use_set set ]

-- The part of an item behind the parts in front of it.
unfoldable pub cons_part : Option Text → Option (List Text) → Option (List Text)
cons_part (some part) (some parts) = some (part ∷ parts)
cons_part _ _ = none

-- The line of a message, in front of those behind it.
unfoldable pub cons_line : Option Text → Option (List Text) → Option (List Text)
cons_line (some line) (some responses) = some (line ∷ responses)
cons_line _ _ = none

unfoldable pub spaced_parts : List Text → Text
spaced_parts [] = []
spaced_parts (part ∷ []) = part
spaced_parts (part ∷ next ∷ rest) = part ++ (b' ' ∷ spaced_parts (next ∷ rest))

module _ {W : Type 0} (store : Store W) (put_time : ℕ → Text) where
  -- `IMAPParser::format_internal_date`.
  unfoldable pub format_internal_date : ℕ → Text
  format_internal_date time = b'"' ∷ (put_time time ++ b'"' ∷ [])

  -- The switch over the type of an item.
  unfoldable pub fetch_part : FetchType → CachedMessage → W → ImapSession → Option Text
  unfolding literal format_internal_date
  fetch_part FetchType.flags msg w s = some (codes "FLAGS " ++ format_flags msg.flags)
  fetch_part FetchType.uid msg w s = some (codes "UID " ++ to_string msg.uid)
  fetch_part FetchType.rfc822_size msg w s = some (codes "RFC822.SIZE " ++ to_string msg.size)
  fetch_part FetchType.internaldate msg w s =
      some (codes "INTERNALDATE " ++ format_internal_date msg.internal_date)
  fetch_part FetchType.rfc822 msg w s =
      literal (codes "BODY[]") (get_message_content store w msg.sequence_number s)
  fetch_part FetchType.body msg w s =
      literal (codes "BODY[]") (get_message_content store w msg.sequence_number s)
  fetch_part FetchType.body_peek msg w s =
      literal (codes "BODY[]") (get_message_content store w msg.sequence_number s)
  fetch_part FetchType.rfc822_header msg w s =
      literal (codes "RFC822.HEADER") (get_message_headers store w msg.sequence_number s)
  fetch_part _ msg w s = some []

  unfoldable pub fetch_parts : List FetchItem → CachedMessage → W → ImapSession → Option (List Text)
  unfolding fetch_part cons_part
  fetch_parts [] msg w s = some []
  fetch_parts (item ∷ rest) msg w s =
      cons_part (fetch_part item.type msg w s) (fetch_parts rest msg w s)

  -- The line of one message.
  unfoldable pub fetch_line : List FetchItem → CachedMessage → W → ImapSession → Option Text
  unfolding fetch_parts spaced_parts
  fetch_line items msg w s = elim (fetch_parts items msg w s) [
    | none ↦ none
    | some parts ↦ some (
        Response.untagged (
          to_string msg.sequence_number ++ (codes " FETCH (" ++ (spaced_parts parts ++ codes ")"))))
  ]

  -- The loop over the messages.
  unfoldable pub fetch_lines :
      List Range → List FetchItem → List CachedMessage → W → ImapSession → Option (List Text)
  unfolding fetch_line cons_line
  fetch_lines set items [] w s = some []
  fetch_lines set items (msg ∷ rest) w s =
      let others = fetch_lines set items rest w s in
      if not (contains set msg.sequence_number)
      then others
      else cons_line (fetch_line items msg w s) others

  unfoldable pub fetch_reply : Text → List FetchItem → W → ImapSession → List Range → Outcome W
  unfolding fetch_lines
  fetch_reply tag items w s set = elim (fetch_lines set items s.messages w s) [
    | none ↦ none
    | some responses ↦ some (w, s, responses ++ Response.ok tag (codes "FETCH completed") ∷ [])
  ]

  unfoldable pub handle_fetch : Command → W → ImapSession → Outcome W
  unfolding fetch_reply with_set
  handle_fetch cmd w s =
      let (seq_str, rest) = next_word cmd.arguments in
      let items = parse_fetch_items (first_line (skip_ws rest)) in
      if not (is_selected s.state)
      then reply w s (Response.bad cmd.tag (codes "No mailbox selected"))
      else with_set seq_str (w, s, Response.bad cmd.tag (codes "Invalid sequence set") ∷ [])
          (fetch_reply cmd.tag items w s)
