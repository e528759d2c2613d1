-- ===== src/Imap/Counts.antt =====
-- What `load_messages` makes of the messages of the directory.
use email_server.Base.{
  ℕ, suc, zero, ◌+◌, ◌-◌, ◌^◌, ◌<◌, ◌≤◌, ◌≡◌, refl, ap, ◌∙◌, sym, true, false, not, List, [], ◌∷◌,
  ◌++◌, none, some, arith, length, append_assoc, append-nil, get_elem?, ltb,
}
use email_server.Imap.Flags.Laws.{member-maildir_to_imap_bytes, any_byte}
use email_server.Imap.Flags.{seen, recent, maildir_to_imap_flags, maildir_flag}
use email_server.Imap.Invariant.Parts.{add_messages-selected}
use email_server.Imap.Mailbox.{
  add_messages, cache_message, load_messages, update_mailbox_counts, clear_messages, count_flag,
  flag_set,
}
use email_server.Imap.Messages.{get_message_by_sequence}
use email_server.Imap.Storage.{Store}
use email_server.Imap.{ImapSession, CachedMessage, SelectedMailbox, next_u32}
use email_server.Maildir.Mailbox.{count_if}
use email_server.Maildir.{Message, is_seen}
use email_server.Text.Sets.Laws.{member-insert_text}
use email_server.Text.Sets.{text_less, member}
use email_server.Text.{Text, text_eq, codes}

-- The messages as the loop numbers them, from a sequence number and a UID on.
unfoldable pub numbered : ℕ → ℕ → List Message → List CachedMessage
numbered seq uid [] = []
numbered seq uid (msg ∷ rest) =
    cache_message seq uid msg ∷ numbered (next_u32 seq) (next_u32 uid) rest

add_messages-messages :
    (seq : ℕ) (ms : List Message) (s : ImapSession)
    → (add_messages seq ms s).messages ≡ s.messages ++ numbered seq s.next_uid ms
unfolding add_messages numbered
add_messages-messages seq [] s = sym (append-nil s.messages)
add_messages-messages seq (msg ∷ rest) s =
    add_messages-messages (next_u32 seq) rest (record s {
      next_uid = next_u32 s.next_uid;
      seq_to_uid = (seq, s.next_uid) ∷ s.seq_to_uid;
      uid_to_seq = (s.next_uid, seq) ∷ s.uid_to_seq;
      messages = s.messages ++ cache_message seq s.next_uid msg ∷ [];
    })
    ∙ append_assoc s.messages (cache_message seq s.next_uid msg ∷ []) _

length-numbered : (seq uid : ℕ) (ms : List Message) → length (numbered seq uid ms) ≡ length ms
unfolding numbered
length-numbered seq uid [] = refl
length-numbered seq uid (msg ∷ rest) = ap suc (length-numbered (next_u32 seq) (next_u32 uid) rest)

recent_facts :
    (maildir_flag recent ≡ none)
    × (text_eq recent recent ≡ true)
    × (text_eq seen recent ≡ false)
    × (maildir_flag seen ≡ some b'S')
unfolding maildir_flag text_eq codes
recent_facts = (refl, refl, refl, refl)

member-recent : (bs : List ℕ) → member text_less recent (maildir_to_imap_flags bs) ≡ false
member-recent bs = member-maildir_to_imap_bytes recent bs ∙ ap (λ o. any_byte o bs) recent_facts.0

member-seen : (bs : List ℕ) → member text_less seen (maildir_to_imap_flags bs) ≡ member ltb b'S' bs
member-seen bs = member-maildir_to_imap_bytes seen bs ∙ ap (λ o. any_byte o bs) recent_facts.3

flag_set-recent :
    (seq uid : ℕ) (msg : Message) → flag_set recent (cache_message seq uid msg) ≡ msg.is_new
unfolding cache_message maildir_to_imap_flags
flag_set-recent seq uid msg =
    let flags = maildir_to_imap_flags msg.flags in
    ground (arith, member-insert_text recent recent flags, recent_facts.1, member-recent msg.flags)

flag_set-seen :
    (seq uid : ℕ) (msg : Message) → flag_set seen (cache_message seq uid msg) ≡ is_seen msg
unfolding cache_message maildir_to_imap_flags
flag_set-seen seq uid msg =
    let flags = maildir_to_imap_flags msg.flags in
    ground (arith, member-insert_text seen recent flags, recent_facts.2, member-seen msg.flags)

count_flag-recent :
    (seq uid : ℕ) (ms : List Message)
    → count_flag recent true (numbered seq uid ms) ≡ count_if (λ msg. msg.is_new) ms
unfolding numbered count_flag count_if
count_flag-recent seq uid [] = refl
count_flag-recent seq uid (msg ∷ rest) =
    ground
      (arith, flag_set-recent seq uid msg, count_flag-recent (next_u32 seq) (next_u32 uid) rest)

count_flag-seen :
    (seq uid : ℕ) (ms : List Message)
    → count_flag seen false (numbered seq uid ms) ≡ count_if (λ msg. not (is_seen msg)) ms
unfolding numbered count_flag count_if
count_flag-seen seq uid [] = refl
count_flag-seen seq uid (msg ∷ rest) =
    ground (arith, flag_set-seen seq uid msg, count_flag-seen (next_u32 seq) (next_u32 uid) rest)

module _ {W : Type 0} (store : Store W) where
  -- What a session counts over the messages that it has loaded, counted over the messages listed.
  pub load_messages-counts :
      (w : W) (s : ImapSession) (domain user : Text) (mailbox : SelectedMailbox)
      (listed : List Message)
      → s.maildir ≡ some (domain, user)
      → s.selected ≡ some mailbox
      → store.list_messages w domain user mailbox.name ≡ some listed
      → (t : ImapSession) × (load_messages store w s ≡ some t)
        × (t.selected
            ≡ some (record mailbox {
              exists = length listed;
              recent = count_if (λ msg. msg.is_new) listed;
              unseen = count_if (λ msg. not (is_seen msg)) listed;
            }))
  unfolding load_messages update_mailbox_counts clear_messages
  load_messages-counts w s domain user mailbox listed e f g =
      let start = clear_messages s in
      let loaded = add_messages-messages 1 listed start in
      let all = ap length loaded ∙ length-numbered 1 s.next_uid listed in
      let recents = ap (count_flag recent true) loaded ∙ count_flag-recent 1 s.next_uid listed in
      let unseen = ap (count_flag seen false) loaded ∙ count_flag-seen 1 s.next_uid listed in
      (
        update_mailbox_counts (add_messages 1 listed start),
        ground (arith, e, f, g),
        ground (arith, e, f, add_messages-selected 1 listed start, all, recents, unseen),
      )

get_elem?-length :
    (ms : List Message) (i : ℕ) (msg : Message) → get_elem? ms i ≡ some msg → i < length ms
get_elem?-length [] i msg e = cc
get_elem?-length (m ∷ ms) zero msg e = omega arith
get_elem?-length (m ∷ ms) (suc i) msg e = omega (arith, get_elem?-length ms i msg e)

numbered-get_elem? :
    (ms : List Message) (i seq uid : ℕ) (msg : Message)
    → seq + length ms ≤ 2 ^ 32
    → uid + length ms ≤ 2 ^ 32
    → get_elem? ms i ≡ some msg
    → get_elem? (numbered seq uid ms) i ≡ some (cache_message (seq + i) (uid + i) msg)
unfolding numbered
numbered-get_elem? [] i seq uid msg b c e = cc
numbered-get_elem? (m ∷ ms) zero seq uid msg b c e = ground arith
numbered-get_elem? (m ∷ ms) (suc i) seq uid msg b c e =
    let inside = get_elem?-length ms i msg e in
    let seq_next : next_u32 seq ≡ suc seq = omega (arith, b, inside) in
    let uid_next : next_u32 uid ≡ suc uid = omega (arith, c, inside) in
    let seq_same : suc seq + i ≡ seq + suc i = omega arith in
    let uid_same : suc uid + i ≡ uid + suc i = omega arith in
    let rest =
      numbered-get_elem? ms i (suc seq) (suc uid) msg (omega (arith, b)) (omega (arith, c)) e in
    rw (seq_next, uid_next)
      (rest
        ∙ (ap (λ n. some (cache_message n (suc uid + i) msg)) seq_same
            ∙ ap (λ n. some (cache_message (seq + suc i) n msg)) uid_same))

module _ {W : Type 0} (store : Store W) where
  load_messages-messages :
      (w : W) (s : ImapSession) (domain user : Text) (mailbox : SelectedMailbox)
      (listed : List Message)
      → s.maildir ≡ some (domain, user)
      → s.selected ≡ some mailbox
      → store.list_messages w domain user mailbox.name ≡ some listed
      → (t : ImapSession) × (load_messages store w s ≡ some t)
        × (t.messages ≡ numbered 1 s.next_uid listed)
  unfolding load_messages update_mailbox_counts clear_messages
  load_messages-messages w s domain user mailbox listed e f g =
      let start = clear_messages s in
      (
        update_mailbox_counts (add_messages 1 listed start),
        ground (arith, e, f, g),
        ground (
          arith,
          e,
          f,
          add_messages-selected 1 listed start,
          add_messages-messages 1 listed start,
        ),
      )

  -- Where the messages of the selected mailbox are listed, they are loaded, and while fewer than 2 ^ 32
  -- are listed and the UIDs do not run out, the sequence number i + 1 leads to the i-th message listed,
  -- which carries this number, and to the i-th of the UIDs that follow those given before.
  pub load_messages-get_message_by_sequence :
      (w : W) (s : ImapSession) (domain user : Text) (mailbox : SelectedMailbox)
      (listed : List Message) (i : ℕ) (msg : Message)
      → s.maildir ≡ some (domain, user)
      → s.selected ≡ some mailbox
      → store.list_messages w domain user mailbox.name ≡ some listed
      → 1 + length listed ≤ 2 ^ 32
      → s.next_uid + length listed ≤ 2 ^ 32
      → get_elem? listed i ≡ some msg
      → (t : ImapSession) × (load_messages store w s ≡ some t)
        × (get_message_by_sequence (1 + i) t ≡ some (cache_message (1 + i) (s.next_uid + i) msg))
  unfolding get_message_by_sequence
  load_messages-get_message_by_sequence w s domain user mailbox listed i msg e f h b c g =
      let (t, there, loaded) = load_messages-messages w s domain user mailbox listed e f h in
      let all = ap length loaded ∙ length-numbered 1 s.next_uid listed in
      let at =
        ap (λ ms. get_elem? ms i) loaded ∙ numbered-get_elem? listed i 1 s.next_uid msg b c g in
      let inside = get_elem?-length listed i msg g in
      let index : 1 + i - 1 ≡ i = omega arith in (t, there, ground (arith, all, at, inside, index))
