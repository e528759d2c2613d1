-- ===== src/Imap/Agreement.antt =====
-- The counts of a session beside those of `Maildir::get_mailbox_info`, over the same directories.
use email_server.Base.{ℕ, ◌≡◌, refl, not, some, arith, length}
use email_server.Imap.Counts.{load_messages-counts}
use email_server.Imap.Mailbox.{load_messages}
use email_server.Imap.{ImapSession, SelectedMailbox}
use email_server.Maildir.Account
use email_server.Maildir.Account.{folder_of, mailbox_info}
use email_server.Maildir.Disk.{Home}
use email_server.Maildir.Mailbox.{count_if, list_messages}
use email_server.Maildir.Names.{mailbox_folder}
use email_server.Maildir.Service
use email_server.Maildir.Service.{Clock, Disk, imap_store}
use email_server.Maildir.{MailboxInfo, is_seen}
use email_server.Text.{Text}

get_mailbox_info-counts :
    (name : Text) (now : ℕ) (home : Home) (info : MailboxInfo)
    → (Account.get_mailbox_info name now home).1 ≡ some info
    → let listed = list_messages (folder_of (mailbox_folder name) home) in
      (info.total_messages ≡ length listed)
      × (info.recent_messages ≡ count_if (λ msg. msg.is_new) listed)
      × (info.unseen_messages ≡ count_if (λ msg. not (is_seen msg)) listed)
unfolding Account.get_mailbox_info mailbox_info
get_mailbox_info-counts name now home info e = ground arith

-- Where `get_mailbox_info` answers about the mailbox that a session with an open directory has selected,
-- its messages are loaded, and the numbers of messages, of recent ones and of unseen ones that the session counts, over IMAP's flags
-- of the messages that it loads, are those of the answer, over the flags of Maildir.
pub load_messages-get_mailbox_info :
    (clock : Clock) (w : Disk) (s : ImapSession) (domain user : Text) (mailbox : SelectedMailbox)
    (info : MailboxInfo)
    → s.maildir ≡ some (domain, user)
    → s.selected ≡ some mailbox
    → (Service.get_mailbox_info clock w domain user mailbox.name).1 ≡ some info
    → (t : ImapSession) × (load_messages (imap_store clock) w s ≡ some t)
      × (t.selected
          ≡ some (record mailbox {
            exists = info.total_messages;
            recent = info.recent_messages;
            unseen = info.unseen_messages;
          }))
unfolding Service.get_mailbox_info
load_messages-get_mailbox_info clock w s domain user mailbox info e f g =
    let (total, recent, unseen) =
      get_mailbox_info-counts mailbox.name (clock.now w.readings) (w.homes domain user) info g in
    let listed = list_messages (folder_of (mailbox_folder mailbox.name) (w.homes domain user)) in
    rw (total, recent, unseen)
      (load_messages-counts (imap_store clock) w s domain user mailbox listed e f refl)
