-- ===== src/Imap/Search.antt =====
-- `SearchCriteria` of imap/include/imap_parser.hpp and `parse_search_criteria` of
-- imap/src/imap_parser.cpp. The types of criteria that no parser makes and no search tells apart, and
-- the fields that go with them (`header_name`, `sub_criteria`), are left out.
use email_server.Base.{List, [], ◌∷◌, Option, none, some, if◌then◌else◌}
use email_server.Text.Stream.{words}
use email_server.Text.{Text, codes, text_eq, upper}

pub data SearchType : Type 0 where
  all answered deleted draft flagged new old recent seen unanswered undeleted undraft unflagged
        unseen from to cc bcc subject body text larger smaller before on since uid :
      SearchType

pub record SearchCriteria : Type 0 where
  pub type : SearchType
  pub value : Text

-- The criteria that stand alone.
unfoldable pub flag_criterion : Text → Option SearchType
flag_criterion token =
    if text_eq token (codes "ALL")
    then some all
    else if text_eq token (codes "ANSWERED")
    then some answered
    else if text_eq token (codes "DELETED")
    then some deleted
    else if text_eq token (codes "DRAFT")
    then some draft
    else if text_eq token (codes "FLAGGED")
    then some flagged
    else if text_eq token (codes "NEW")
    then some new
    else if text_eq token (codes "OLD")
    then some old
    else if text_eq token (codes "RECENT")
    then some recent
    else if text_eq token (codes "SEEN")
    then some seen
    else if text_eq token (codes "UNANSWERED")
    then some unanswered
    else if text_eq token (codes "UNDELETED")
    then some undeleted
    else if text_eq token (codes "UNDRAFT")
    then some undraft
    else if text_eq token (codes "UNFLAGGED")
    then some unflagged
    else if text_eq token (codes "UNSEEN")
    then some unseen
    else none

-- The criteria that take the next word as their value.
unfoldable pub value_criterion : Text → Option SearchType
value_criterion token =
    if text_eq token (codes "FROM")
    then some from
    else if text_eq token (codes "TO")
    then some to
    else if text_eq token (codes "CC")
    then some cc
    else if text_eq token (codes "BCC")
    then some bcc
    else if text_eq token (codes "SUBJECT")
    then some subject
    else if text_eq token (codes "BODY")
    then some body
    else if text_eq token (codes "TEXT")
    then some text
    else if text_eq token (codes "LARGER")
    then some larger
    else if text_eq token (codes "SMALLER")
    then some smaller
    else if text_eq token (codes "BEFORE")
    then some before
    else if text_eq token (codes "ON")
    then some on
    else if text_eq token (codes "SINCE")
    then some since
    else if text_eq token (codes "UID")
    then some uid
    else none

-- The loop over the words; a value that is missing at the end is empty.
unfoldable pub search_criteria : List Text → List SearchCriteria
search_criteria [] = []
search_criteria (token ∷ []) = elim (flag_criterion (upper token)) [
  | some type ↦ record { type = type; value = [] } ∷ []
  | none ↦ elim (value_criterion (upper token)) [
    | some type ↦ record { type = type; value = [] } ∷ []
    | none ↦ []
  ]
]
search_criteria (token ∷ value ∷ rest) = elim (flag_criterion (upper token)) [
  | some type ↦ record { type = type; value = [] } ∷ search_criteria (value ∷ rest)
  | none ↦ elim (value_criterion (upper token)) [
    | some type ↦ record { type = type; value = value } ∷ search_criteria rest
    | none ↦ search_criteria (value ∷ rest)
  ]
]

-- `IMAPParser::parse_search_criteria`.
unfoldable pub parse_search_criteria : Text → List SearchCriteria
unfolding search_criteria words
parse_search_criteria s = search_criteria (words s)
