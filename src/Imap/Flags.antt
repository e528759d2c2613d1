-- ===== src/Imap/Flags.antt =====
-- The flags of Maildir as flags of IMAP, and back: `maildir_to_imap_flags` and
-- `imap_to_maildir_flags` of imap/src/imap_session.cpp.
pub mod Laws
use email_server.Base.{ℕ, List, [], ◌∷◌, Option, none, some, ltb, ◌==◌, if◌then◌else◌}
use email_server.Text.Sets.{text_less, insert}
use email_server.Text.{Text, codes, text_eq}

abbrev pub seen : Text
seen = codes "\\Seen"

abbrev pub answered : Text
answered = codes "\\Answered"

abbrev pub flagged : Text
flagged = codes "\\Flagged"

abbrev pub deleted : Text
deleted = codes "\\Deleted"

abbrev pub draft : Text
draft = codes "\\Draft"

abbrev pub recent : Text
recent = codes "\\Recent"

-- The switch; another byte adds nothing.
unfoldable pub imap_flag : ℕ → Option Text
imap_flag flag =
    if flag == b'S'
    then some seen
    else if flag == b'R'
    then some answered
    else if flag == b'F'
    then some flagged
    else if flag == b'T'
    then some deleted
    else if flag == b'D'
    then some draft
    else none

unfoldable pub imap_flags : List ℕ → List Text → List Text
unfolding imap_flag
imap_flags [] out = out
imap_flags (flag ∷ rest) out = elim (imap_flag flag) [
  | none ↦ imap_flags rest out
  | some name ↦ imap_flags rest (insert text_less name out)
]

-- `IMAPSession::maildir_to_imap_flags`.
unfoldable pub maildir_to_imap_flags : List ℕ → List Text
unfolding imap_flags
maildir_to_imap_flags flags = imap_flags flags []

-- The chain of tests; a flag that Maildir has no byte for is dropped.
unfoldable pub maildir_flag : Text → Option ℕ
maildir_flag flag =
    if text_eq flag seen
    then some b'S'
    else if text_eq flag answered
    then some b'R'
    else if text_eq flag flagged
    then some b'F'
    else if text_eq flag deleted
    then some b'T'
    else if text_eq flag draft
    then some b'D'
    else none

unfoldable pub maildir_flags : List Text → List ℕ → List ℕ
unfolding maildir_flag
maildir_flags [] out = out
maildir_flags (flag ∷ rest) out = elim (maildir_flag flag) [
  | none ↦ maildir_flags rest out
  | some byte ↦ maildir_flags rest (insert ltb byte out)
]

-- `IMAPSession::imap_to_maildir_flags`.
unfoldable pub imap_to_maildir_flags : List Text → List ℕ
unfolding maildir_flags
imap_to_maildir_flags flags = maildir_flags flags []
