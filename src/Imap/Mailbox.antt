-- ===== src/Imap/Mailbox.antt =====
-- The operations of imap/src/imap_session.cpp on the mail directory and the selected mailbox.
use email_server.Base.{
  ℕ, suc, ◌+◌, Bool, true, false, ◌||◌, List, [], ◌∷◌, ◌++◌, Option, none, some, if◌then◌else◌,
  is_empty, length,
}
use email_server.Imap.Flags.{maildir_to_imap_flags, seen, deleted, recent}
use email_server.Imap.Storage.{Store}
use email_server.Imap.{
  ImapSession, CachedMessage, authenticated_state, selected_state, set_state, next_u32,
}
use email_server.Maildir.{Message, MailboxInfo}
use email_server.Text.Sets.{text_less, member, insert}
use email_server.Text.{Text, codes}

abbrev pub inbox : Text
inbox = codes "INBOX"

-- `msg.flags.count(flag) > 0`.
abbrev pub flag_set : Text → CachedMessage → Bool
flag_set flag msg = member text_less flag msg.flags

-- What `load_messages` keeps of a message of the directory.
unfoldable pub cache_message : ℕ → ℕ → Message → CachedMessage
unfolding maildir_to_imap_flags
cache_message seq uid msg =
    let flags = maildir_to_imap_flags msg.flags in
    record {
      sequence_number = seq;
      uid = uid;
      unique_id = msg.unique_id;
      size = msg.size;
      flags = if msg.is_new then insert text_less recent flags else flags;
      internal_date = msg.timestamp;
    }

-- The loop of `load_messages`, for the messages that are left, from a sequence number on.
unfoldable pub add_messages : ℕ → List Message → ImapSession → ImapSession
unfolding cache_message
add_messages seq [] s = s
add_messages seq (msg ∷ rest) s =
    let uid = s.next_uid in
    add_messages (next_u32 seq) rest (record s {
      next_uid = next_u32 uid;
      seq_to_uid = (seq, uid) ∷ s.seq_to_uid;
      uid_to_seq = (uid, seq) ∷ s.uid_to_seq;
      messages = s.messages ++ cache_message seq uid msg ∷ [];
    })

unfoldable pub count_flag : Text → Bool → List CachedMessage → ℕ
count_flag flag there [] = 0
count_flag flag there (msg ∷ rest) =
    (if flag_set flag msg then (if there then 1 else 0) else (if there then 0 else 1))
    + count_flag flag there rest

-- `IMAPSession::update_mailbox_counts`.
unfoldable pub update_mailbox_counts : ImapSession → ImapSession
unfolding count_flag
update_mailbox_counts s = elim s.selected [
  | none ↦ s
  | some mailbox ↦ record s {
    selected = some (record mailbox {
      exists = length s.messages;
      recent = count_flag recent true s.messages;
      unseen = count_flag seen false s.messages;
    });
  }
]

-- Both maps and the messages are cleared.
unfoldable pub clear_messages : ImapSession → ImapSession
clear_messages s = record s { messages = []; seq_to_uid = []; uid_to_seq = [] }

-- `IMAPSession::close_mailbox`.
unfoldable pub close_mailbox : ImapSession → ImapSession
unfolding clear_messages
close_mailbox s =
    let closed = record s { selected = none } in
    set_state authenticated_state (clear_messages closed)

-- The texts that `expunge` deletes by, and their sequence numbers, from an index on.
unfoldable pub to_delete : ℕ → List CachedMessage → List (ℕ × Text)
to_delete i [] = []
to_delete i (msg ∷ rest) =
    let later = to_delete (suc i) rest in
    if flag_set deleted msg then (suc i, msg.unique_id) ∷ later else later

unfoldable pub sequence_numbers : List (ℕ × Text) → List ℕ
sequence_numbers [] = []
sequence_numbers ((seq, id) ∷ rest) = seq ∷ sequence_numbers rest

module _ {W : Type 0} (store : Store W) where
  -- `IMAPSession::load_messages`.
  unfoldable pub load_messages : W → ImapSession → Option ImapSession
  unfolding clear_messages add_messages update_mailbox_counts
  load_messages w s = elim s.maildir [
    | none ↦ some (clear_messages s)
    | some (domain, user) ↦ elim s.selected [
      | none ↦ some (clear_messages s)
      | some mailbox ↦ elim (store.list_messages w domain user mailbox.name) [
        | none ↦ none
        | some listed ↦ some (update_mailbox_counts (add_messages 1 listed (clear_messages s)))
      ]
    ]
  ]

  -- `IMAPSession::open_maildir`; the object is kept also where it cannot be initialised.
  unfoldable pub open_maildir : W → ImapSession → Option (W × ImapSession × Bool)
  open_maildir w s =
      let opened = record s { maildir = some (s.domain, s.username) } in
      let (w', made) = store.initialize w s.domain s.username in
      if is_empty s.username || is_empty s.domain
      then some (w, s, false)
      else elim (store.exists w s.domain s.username) [
        | none ↦ none
        | some there ↦ some (if there then (w, opened, true) else (w', opened, made))
      ]

  -- What `select_mailbox` does with a mailbox that it found.
  unfoldable pub choose : Text → Bool → MailboxInfo → W → ImapSession → Option ImapSession
  unfolding load_messages
  choose name read_only info w s =
      let chosen = record s {
        selected = some (record {
          name = name;
          read_only = read_only;
          uid_validity = info.uid_validity;
          uid_next = info.uid_next;
          exists = info.total_messages;
          recent = info.recent_messages;
          unseen = info.unseen_messages;
        });
      } in
      elim (load_messages w chosen) [
        | none ↦ none
        | some loaded ↦ some (set_state selected_state loaded)
      ]

  -- `IMAPSession::select_mailbox`.
  unfoldable pub select_mailbox : Text → Bool → W → ImapSession → Option (W × ImapSession × Bool)
  unfolding choose
  select_mailbox name read_only w s = elim s.maildir [
    | none ↦ some (w, s, false)
    | some (domain, user) ↦
        let mailbox_name = if is_empty name then inbox else name in
        elim (store.get_mailbox_info w domain user mailbox_name) [
          | none ↦ none
          | some (w', none) ↦ some (w', s, false)
          | some (w', some info) ↦ elim (choose mailbox_name read_only info w' s) [
            | none ↦ none
            | some chosen ↦ some (w', chosen, true)
          ]
        ]
  ]

  -- `IMAPSession::list_mailboxes`.
  unfoldable pub list_mailboxes : Text → W → ImapSession → List Text
  list_mailboxes pattern w s = elim s.maildir [
    | none ↦ []
    | some (domain, user) ↦ store.list_mailboxes w domain user pattern
  ]

  -- The deletions of `expunge`, from the last message to the first; the first that throws ends them.
  unfoldable pub delete_from_last : Text → Text → Text → List (ℕ × Text) → W → Option W
  delete_from_last domain user mailbox [] w = some w
  delete_from_last domain user mailbox ((seq, id) ∷ rest) w =
      elim (delete_from_last domain user mailbox rest w) [
        | none ↦ none
        | some w' ↦ elim (store.delete_message w' domain user id mailbox) [
          | none ↦ none
          | some (w'', done) ↦ some w''
        ]
      ]

  -- `IMAPSession::expunge`.
  unfoldable pub expunge : W → ImapSession → Option (W × ImapSession × List ℕ)
  unfolding to_delete sequence_numbers delete_from_last load_messages
  expunge w s = elim s.maildir [
    | none ↦ some (w, s, [])
    | some (domain, user) ↦ elim s.selected [
      | none ↦ some (w, s, [])
      | some mailbox ↦
          let marked = to_delete 0 s.messages in
          elim (delete_from_last domain user mailbox.name marked w) [
            | none ↦ none
            | some w' ↦ elim (load_messages w' s) [
              | none ↦ none
              | some loaded ↦ some (w', loaded, sequence_numbers marked)
            ]
          ]
    ]
  ]
