-- ===== src/Imap/Action.antt =====
-- `StoreAction` of imap/include/imap_parser.hpp and `parse_store_action` of imap/src/imap_parser.cpp.
use email_server.Base.{List, Option, none, some, if◌then◌else◌}
use email_server.Imap.Strings.{parse_flag_list}
use email_server.Text.Stream.{next_word, skip_ws, first_line, take_while, drop_while}
use email_server.Text.{Text, codes, text_eq, upper}

pub data StoreType : Type 0 where
  flags flags_silent plus_flags plus_flags_silent minus_flags minus_flags_silent : StoreType

pub record StoreAction : Type 0 where
  pub type : StoreType
  pub flags : List Text

unfoldable pub store_type : Text → Option StoreType
store_type action =
    if text_eq action (codes "FLAGS")
    then some StoreType.flags
    else if text_eq action (codes "FLAGS.SILENT")
    then some flags_silent
    else if text_eq action (codes "+FLAGS")
    then some plus_flags
    else if text_eq action (codes "+FLAGS.SILENT")
    then some plus_flags_silent
    else if text_eq action (codes "-FLAGS")
    then some minus_flags
    else if text_eq action (codes "-FLAGS.SILENT")
    then some minus_flags_silent
    else none

-- `IMAPParser::parse_store_action`.
unfoldable pub parse_store_action : Text → Option StoreAction
unfolding store_type parse_flag_list take_while drop_while
parse_store_action s =
    let (action, rest) = next_word s in
    elim (store_type (upper action)) [
      | none ↦ none
      | some type ↦
          some (record { type = type; flags = parse_flag_list (first_line (skip_ws rest)) })
    ]
