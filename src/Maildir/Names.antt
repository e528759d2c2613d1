-- ===== src/Maildir/Names.antt =====
-- The names of files and of directories in common/src/storage/maildir.cpp: `flags_to_info`,
-- `parse_flags`, `get_mailbox_path` and the part of `parse_message_file` that reads a name. A mailbox's
-- path is the name of its directory in the user's mail directory; INBOX, which is that directory
-- itself, has the empty name.
pub mod Laws
use email_server.Base.{
  ℕ, ◌+◌, Bool, true, false, ◌||◌, List, [], ◌∷◌, ◌++◌, Option, none, some, ltb, ◌==◌,
  if◌then◌else◌, is_empty, take, drop,
}
use email_server.Text.Sets.{insert_all}
use email_server.Text.{Text, codes, text_eq, find_if, find_char, find_text}

-- `Maildir::flags_to_info`.
unfoldable pub flags_to_info : List ℕ → Text
flags_to_info [] = []
flags_to_info (flag ∷ flags) = b':' ∷ b'2' ∷ b',' ∷ flag ∷ flags

-- `Maildir::parse_flags`.
unfoldable pub parse_flags : Text → List ℕ
unfolding find_text
parse_flags filename = elim (find_text (b':' ∷ b'2' ∷ b',' ∷ []) filename) [
  | none ↦ []
  | some pos ↦ insert_all ltb (drop (pos + 3) filename) []
]

-- "everything before :2,": what stands in front of the first colon.
unfoldable pub unique_id_of : Text → Text
unfolding find_if
unique_id_of filename = elim (find_char b':' filename) [
  | none ↦ filename
  | some pos ↦ take pos filename
]

-- `name.empty() || name == "INBOX"`.
abbrev pub is_inbox : Text → Bool
is_inbox name = is_empty name || text_eq name (codes "INBOX")

-- `std::replace`.
unfoldable pub replace : ℕ → ℕ → Text → Text
replace old new [] = []
replace old new (c ∷ s) = (if c == old then new else c) ∷ replace old new s

-- The last part of `Maildir::get_mailbox_path`, as the text that the code computes; the calls of the
-- operating system would end it at a NUL.
unfoldable pub mailbox_folder : Text → Text
unfolding replace
mailbox_folder mailbox = if is_inbox mailbox then [] else replace b'/' b'.' (b'.' ∷ mailbox)
