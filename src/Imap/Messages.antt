-- ===== src/Imap/Messages.antt =====
-- The operations of imap/src/imap_session.cpp on single messages, and its search.
use email_server.Base.{
  ℕ, zero, suc, ◌-◌, Bool, true, false, not, ◌&&◌, ◌||◌, List, [], ◌∷◌, Option, none, some, ltb,
  if◌then◌else◌, get_elem?, length,
}
use email_server.Imap.Flags.{imap_to_maildir_flags, seen, answered, flagged, deleted, draft, recent}
use email_server.Imap.Mailbox.{flag_set}
use email_server.Imap.Search.{SearchType, SearchCriteria}
use email_server.Imap.Sequence
use email_server.Imap.Storage.{Store}
use email_server.Imap.{ImapSession, CachedMessage, find_or_zero}
use email_server.Text.Sets.{text_less, insert_all, erase_all}
use email_server.Text.Stream.{stoul}
use email_server.Text.{Text}

-- `IMAPSession::get_message_by_sequence`.
unfoldable pub get_message_by_sequence : ℕ → ImapSession → Option CachedMessage
get_message_by_sequence seq s =
    if ltb seq 1 || ltb (length s.messages) seq then none else get_elem? s.messages (seq - 1)

-- `IMAPSession::get_uid_for_sequence` and `IMAPSession::get_sequence_for_uid`.
unfoldable pub get_uid_for_sequence : ℕ → ImapSession → ℕ
unfolding find_or_zero
get_uid_for_sequence seq s = find_or_zero seq s.seq_to_uid

unfoldable pub get_sequence_for_uid : ℕ → ImapSession → ℕ
unfolding find_or_zero
get_sequence_for_uid uid s = find_or_zero uid s.uid_to_seq

-- `messages_[i].flags = flags`.
unfoldable pub replace_flags : ℕ → List Text → List CachedMessage → List CachedMessage
replace_flags zero flags [] = []
replace_flags (suc i) flags [] = []
replace_flags zero flags (msg ∷ rest) = record msg { flags = flags } ∷ rest
replace_flags (suc i) flags (msg ∷ rest) = msg ∷ replace_flags i flags rest

-- `IMAPSession::get_message_content` and `IMAPSession::get_message_headers`, with the operation of
-- the directory that they call.
unfoldable pub read_message :
    (Text → Text → Text → Text → Option (Option Text)) → ℕ → ImapSession → Option (Option Text)
unfolding get_message_by_sequence
read_message from seq s = elim (get_message_by_sequence seq s) [
  | none ↦ some none
  | some msg ↦ elim s.maildir [
    | none ↦ some none
    | some (domain, user) ↦ elim s.selected [
      | none ↦ some none
      | some mailbox ↦ from domain user msg.unique_id mailbox.name
    ]
  ]
]

module _ {W : Type 0} (store : Store W) where
  abbrev pub get_message_content : W → ℕ → ImapSession → Option (Option Text)
  get_message_content w = read_message (store.get_message_content w)

  abbrev pub get_message_headers : W → ℕ → ImapSession → Option (Option Text)
  get_message_headers w = read_message (store.get_message_headers w)

  -- `IMAPSession::set_flags`.
  unfoldable pub set_flags : ℕ → List Text → W → ImapSession → Option (W × ImapSession × Bool)
  unfolding get_message_by_sequence replace_flags imap_to_maildir_flags
  set_flags seq flags w s = elim (get_message_by_sequence seq s) [
    | none ↦ some (w, s, false)
    | some msg ↦ elim s.maildir [
      | none ↦ some (w, s, false)
      | some (domain, user) ↦ elim s.selected [
        | none ↦ some (w, s, false)
        | some mailbox ↦
            elim (store.set_flags w domain user msg.unique_id (imap_to_maildir_flags flags)
              mailbox.name) [
                | none ↦ none
                | some (w', done) ↦
                    if done
                    then some
                        (w', record s { messages = replace_flags (seq - 1) flags s.messages }, true)
                    else some (w', s, false)
              ]
      ]
    ]
  ]

  -- `IMAPSession::add_flags`.
  unfoldable pub add_flags : ℕ → List Text → W → ImapSession → Option (W × ImapSession × Bool)
  unfolding set_flags
  add_flags seq flags w s = elim (get_message_by_sequence seq s) [
    | none ↦ some (w, s, false)
    | some msg ↦ set_flags seq (insert_all text_less flags msg.flags) w s
  ]

  -- `IMAPSession::remove_flags`.
  unfoldable pub remove_flags : ℕ → List Text → W → ImapSession → Option (W × ImapSession × Bool)
  unfolding set_flags
  remove_flags seq flags w s = elim (get_message_by_sequence seq s) [
    | none ↦ some (w, s, false)
    | some msg ↦ set_flags seq (erase_all text_less flags msg.flags) w s
  ]

-- The comparison of a size with a number that is read from a text, if it is one.
unfoldable pub against : (ℕ → Bool) → Option ℕ → Option Bool
against test none = none
against test (some n) = some (test n)

unfoldable pub in_set : ℕ → Option (List Sequence.Range) → Option Bool
in_set uid none = none
in_set uid (some set) = some (Sequence.contains set uid)

-- The switch of `search`: whether a message meets a criterion; `none` is an exception.
unfoldable pub meets : SearchType → Text → CachedMessage → Option Bool
unfolding against in_set
meets SearchType.seen value msg = some (flag_set seen msg)
meets SearchType.unseen value msg = some (not (flag_set seen msg))
meets SearchType.answered value msg = some (flag_set answered msg)
meets SearchType.unanswered value msg = some (not (flag_set answered msg))
meets SearchType.deleted value msg = some (flag_set deleted msg)
meets SearchType.undeleted value msg = some (not (flag_set deleted msg))
meets SearchType.flagged value msg = some (flag_set flagged msg)
meets SearchType.unflagged value msg = some (not (flag_set flagged msg))
meets SearchType.draft value msg = some (flag_set draft msg)
meets SearchType.undraft value msg = some (not (flag_set draft msg))
meets SearchType.recent value msg = some (flag_set recent msg)
meets SearchType.new value msg = some (flag_set recent msg && not (flag_set seen msg))
meets SearchType.old value msg = some (not (flag_set recent msg))
meets SearchType.larger value msg = against (λ n. ltb n msg.size) (stoul value)
meets SearchType.smaller value msg = against (λ n. ltb msg.size n) (stoul value)
meets SearchType.uid value msg = in_set msg.uid (Sequence.parse value)
meets _ value msg = some true

-- The loop over the criteria, which the first that is not met ends.
unfoldable pub matches : List SearchCriteria → CachedMessage → Option Bool
unfolding meets
matches [] msg = some true
matches (crit ∷ rest) msg = elim (meets crit.type crit.value msg) [
  | none ↦ none
  | some met ↦ elim met [ true ↦ matches rest msg | false ↦ some false ]
]

-- The number of a message that matched, in front of the numbers of those behind it.
unfoldable pub push_result : Option Bool → ℕ → Option (List ℕ) → Option (List ℕ)
push_result none number results = none
push_result (some matched) number none = none
push_result (some matched) number (some results) =
    some (if matched then number ∷ results else results)

-- `IMAPSession::search` over the messages.
unfoldable pub search : List SearchCriteria → Bool → List CachedMessage → Option (List ℕ)
unfolding matches push_result
search criteria use_uid [] = some []
search criteria use_uid (msg ∷ rest) =
    push_result (matches criteria msg) (if use_uid then msg.uid else msg.sequence_number)
      (search criteria use_uid rest)
