-- ===== src/Maildir/Tests.antt =====
-- The properties of a mail directory at concrete directories.
use email_server.Base.{◌≡◌, ◌≢◌, ◌↔◌, ◌⊎◌, refl, true, false, [], ◌∷◌, ◌++◌, All, none, some}
use email_server.Imap.Agreement.{load_messages-get_mailbox_info}
use email_server.Imap.Mailbox.{load_messages}
use email_server.Imap.{ImapSession, SelectedMailbox, open_session}
use email_server.Maildir.Account
use email_server.Maildir.Account.{deliver, folder_of, mailbox_info}
use email_server.Maildir.Delivery.{deliver-get_message_content}
use email_server.Maildir.Disk.{File, Folder, Home}
use email_server.Maildir.Files.{set_flags-new, placed, delete_message-placed}
use email_server.Maildir.Mailbox.{get_message_content, set_flags, delete_message, locate}
use email_server.Maildir.Names.Laws.{os_name, mailbox_folder-Contained}
use email_server.Maildir.Names.{mailbox_folder, flags_to_info}
use email_server.Maildir.Service
use email_server.Maildir.Service.{Clock, Disk, imap_store}
use email_server.Maildir.{MailboxInfo}
use email_server.Text.{Text, codes, text_eq, starts_with}

abbrev old_file : File
old_file = record { name = codes "1.a:2,S"; content = codes "x"; time = 4 }

abbrev new_file : File
new_file = record { name = codes "2.b"; content = codes "y"; time = 5 }

abbrev filled : Folder
filled = record {
  cur = some (old_file ∷ []);
  new = some (new_file ∷ []);
  tmp = some [];
  uidvalidity = none;
}

abbrev home : Home
home = ([], filled) ∷ []

abbrev arriving : File
arriving = record { name = codes "3.c"; content = codes "z"; time = 6 }

mailbox_folder-Contained_example :
    (rest : Text) × (os_name (mailbox_folder (b'.' ∷ 0 ∷ b'x' ∷ [])) ≡ b'.' ∷ rest)
    × All (λ c. c ≢ b'/') rest
    × ((rest ≡ codes ".") ↔ (
        (os_name (b'.' ∷ 0 ∷ b'x' ∷ []) ≡ codes ".")
        ⊎ (os_name (b'.' ∷ 0 ∷ b'x' ∷ []) ≡ codes "/")))
    × ((rest ≡ []) ↔ (os_name (b'.' ∷ 0 ∷ b'x' ∷ []) ≡ []))
unfolding codes text_eq
mailbox_folder-Contained_example = mailbox_folder-Contained (b'.' ∷ 0 ∷ b'x' ∷ []) refl

set_flags-new_example :
    set_flags (codes "2.b") (b'S' ∷ []) filled
    ≡ some (
      record filled {
        new = some [];
        cur =
            some
              (old_file ∷ record new_file { name = codes "2.b" ++ flags_to_info (b'S' ∷ []) } ∷ []);
      },
      true,
    )
unfolding codes starts_with
set_flags-new_example =
    set_flags-new (codes "2.b") (b'S' ∷ []) filled (old_file ∷ []) [] new_file []
      (refl, (refl, (refl, tt))) refl refl (refl, tt) refl tt tt

delete_message-placed_example :
    (delete_message (codes "2.b") (placed true ([] ++ new_file ∷ []) (old_file ∷ []) filled)
      ≡ some (placed true ([] ++ []) (old_file ∷ []) filled, true))
    × (locate (codes "2.b") (placed true ([] ++ []) (old_file ∷ []) filled) ≡ some none)
unfolding codes starts_with
delete_message-placed_example =
    delete_message-placed (codes "2.b") true filled [] new_file [] (old_file ∷ []) refl tt tt
      (refl, tt)

deliver-get_message_content_example :
    let (home', name) = deliver arriving (codes "INBOX") home in
    (name ≡ codes "3.c")
    × (get_message_content (codes "3.c") (folder_of (mailbox_folder (codes "INBOX")) home')
        ≡ some (some (codes "z")))
    × ((other : Text)
        → text_eq (mailbox_folder (codes "INBOX")) other ≡ false
        → folder_of other home' ≡ folder_of other home)
unfolding codes starts_with mailbox_folder folder_of text_eq
deliver-get_message_content_example =
    deliver-get_message_content arriving (codes "INBOX") home (old_file ∷ []) (new_file ∷ []) refl
      refl refl (refl, tt) (refl, tt)

abbrev clock : Clock
clock = record { unique_name = λ n. codes "9.z"; now = λ n. 7 }

abbrev disk : Disk
disk = record { homes = λ domain user. home; readings = 0 }

abbrev chosen : SelectedMailbox
chosen = record {
  name = codes "INBOX";
  read_only = false;
  uid_validity = 5;
  uid_next = 6;
  exists = 0;
  recent = 0;
  unseen = 0;
}

abbrev reading : ImapSession
reading = record (open_session false (codes "h") false) {
  maildir = some (codes "d", codes "u");
  selected = some chosen;
}

abbrev answer : MailboxInfo
answer = (mailbox_info (codes "INBOX") 7 filled).1

load_messages-get_mailbox_info_example :
    (t : ImapSession) × (load_messages (imap_store clock) disk reading ≡ some t)
    × (t.selected
        ≡ some (record chosen {
          exists = answer.total_messages;
          recent = answer.recent_messages;
          unseen = answer.unseen_messages;
        }))
unfolding open_session Service.get_mailbox_info Account.get_mailbox_info folder_of mailbox_folder
    codes text_eq
load_messages-get_mailbox_info_example =
    load_messages-get_mailbox_info clock disk reading (codes "d") (codes "u") chosen answer refl
      refl refl
