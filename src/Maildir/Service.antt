-- ===== src/Maildir/Service.antt =====
-- `Maildir` of common/src/storage/maildir.cpp for every user of every domain, as the sessions of IMAP
-- ask for it. The disk is the mail directories of all users; `readings` counts how often the clock and
-- the source of unique names have been read, and a host says what they answer each time.
use email_server.Base.{ℕ, suc, Bool, true, ◌&&◌, Option, none, some, if◌then◌else◌}
use email_server.Imap.Storage.{Store}
use email_server.Maildir.Account
use email_server.Maildir.Account.{folder_of}
use email_server.Maildir.Disk.{Folder, Home, put_folder}
use email_server.Maildir.Mailbox
use email_server.Maildir.Names.{mailbox_folder}
use email_server.Maildir.{MailboxInfo}
use email_server.Text.{Text, text_eq}

pub record Clock : Type 0 where
  pub unique_name : ℕ → Text
  pub now : ℕ → ℕ

pub record Disk : Type 0 where
  pub homes : Text → Text → Home
  pub readings : ℕ

-- The disk with other directories of one user.
abbrev pub put_home : Text → Text → Home → Disk → Disk
put_home domain user home w = record w {
  homes = λ d u. if text_eq d domain && text_eq u user then home else w.homes d u;
}

abbrev read_once : Disk → Disk
read_once w = record w { readings = suc w.readings }

-- An operation on one mailbox that may throw, done on the disk.
unfoldable pub in_mailbox :
    Text → Text → Text → (Folder → Option (Folder × Bool)) → Disk → Option (Disk × Bool)
unfolding folder_of put_folder
in_mailbox domain user mailbox operation w =
    let key = mailbox_folder mailbox in
    let home = w.homes domain user in
    elim (operation (folder_of key home)) [
      | none ↦ none
      | some (folder, done) ↦ some (put_home domain user (put_folder key folder home) w, done)
    ]

-- The result of an operation on a user's directories, put on the disk.
abbrev put_result {ℓ} : {A : Type ℓ} → Text → Text → Disk → Home × A → Disk × A
put_result domain user w (home, result) = (put_home domain user home w, result)

unfoldable pub get_mailbox_info : Clock → Disk → Text → Text → Text → Disk × Option MailboxInfo
get_mailbox_info clock w domain user name =
    put_result domain user (read_once w)
      (Account.get_mailbox_info name (clock.now w.readings) (w.homes domain user))

unfoldable pub copy_message : Clock → Disk → Text → Text → Text → Text → Text → Option (Disk × Bool)
copy_message clock w domain user unique_id from to =
    elim (Account.copy_message unique_id from to (clock.unique_name w.readings)
      (clock.now w.readings) (w.homes domain user)) [
        | none ↦ none
        | some result ↦ some (put_result domain user (read_once w) result)
      ]

-- `Maildir` as the storage of IMAP.
abbrev pub imap_store : Clock → Store Disk
imap_store clock = record {
  exists = λ w domain user. some (Account.exists (w.homes domain user));
  initialize =
      λ w domain user. (put_home domain user (Account.initialize (w.homes domain user)) w, true);
  create_mailbox = λ w domain user name.
      (put_home domain user (Account.create_mailbox name (w.homes domain user)) w, true);
  delete_mailbox = λ w domain user name.
      put_result domain user w (Account.delete_mailbox name (w.homes domain user));
  rename_mailbox = λ w domain user old_name new_name.
      put_result domain user w (Account.rename_mailbox old_name new_name (w.homes domain user));
  list_mailboxes = λ w domain user pattern. Account.list_mailboxes pattern (w.homes domain user);
  get_mailbox_info = λ w domain user name. some (get_mailbox_info clock w domain user name);
  list_messages = λ w domain user mailbox.
      some (Mailbox.list_messages (folder_of (mailbox_folder mailbox) (w.homes domain user)));
  get_message_content = λ w domain user unique_id mailbox.
      Mailbox.get_message_content unique_id
        (folder_of (mailbox_folder mailbox) (w.homes domain user));
  get_message_headers = λ w domain user unique_id mailbox.
      Mailbox.get_message_headers unique_id
        (folder_of (mailbox_folder mailbox) (w.homes domain user));
  delete_message = λ w domain user unique_id mailbox.
      in_mailbox domain user mailbox (Mailbox.delete_message unique_id) w;
  copy_message = copy_message clock;
  set_flags = λ w domain user unique_id flags mailbox.
      in_mailbox domain user mailbox (Mailbox.set_flags unique_id flags) w;
}
