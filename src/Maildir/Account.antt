-- ===== src/Maildir/Account.antt =====
-- The operations of common/src/storage/maildir.cpp on the mailboxes of one user. `generate_unique_name`
-- and the clock are read from outside: a name and a time are arguments of what uses them. A mailbox
-- whose directory would be ".." lies outside of what a user's directories are here.
use email_server.Base.{
  ℕ, ◌+◌, ◌%◌, ◌^◌, Bool, true, false, not, ◌&&◌, ◌||◌, List, [], ◌∷◌, ◌++◌, Option, none, some,
  ◌==◌, if◌then◌else◌, is_empty, length, take,
}
use email_server.Maildir.Disk.{
  File, Directory, Folder, Home, empty_folder, is_there, find_folder, put_folder, remove_folder,
  remove_file, put_file,
}
use email_server.Maildir.Mailbox.{
  list_messages, count_if, sum_sizes, get_message_content, locate, change,
}
use email_server.Maildir.Names.{mailbox_folder, is_inbox, replace}
use email_server.Maildir.{MailboxInfo, is_seen}
use email_server.Text.Sets.{text_less}
use email_server.Text.{Text, codes, text_eq, starts_with, find_if, find_char}

-- The directory of a mailbox, empty where it is not there.
unfoldable pub folder_of : Text → Home → Folder
unfolding find_folder
folder_of name home = elim (find_folder name home) [ none ↦ empty_folder | some folder ↦ folder ]

-- `create_directories`.
abbrev made : Directory → Directory
made none = some []
made (some files) = some files

abbrev with_dirs : Folder → Folder
with_dirs folder = record folder {
  cur = made folder.cur;
  new = made folder.new;
  tmp = made folder.tmp;
}

-- `Maildir::ensure_mailbox_dirs`.
unfoldable pub ensure_mailbox_dirs : Text → Home → Home
unfolding folder_of put_folder
ensure_mailbox_dirs name home = put_folder name (with_dirs (folder_of name home)) home

-- `Maildir::create_mailbox`.
unfoldable pub create_mailbox : Text → Home → Home
unfolding ensure_mailbox_dirs
create_mailbox name home =
    if is_inbox name then home else ensure_mailbox_dirs (mailbox_folder name) home

-- `Maildir::initialize`.
unfoldable pub initialize : Home → Home
unfolding create_mailbox ensure_mailbox_dirs
initialize home = create_mailbox (codes "Junk") (
    create_mailbox (codes "Trash") (
      create_mailbox (codes "Drafts")
        (create_mailbox (codes "Sent") (ensure_mailbox_dirs [] home))))

-- Whether the three directories are there.
unfoldable pub is_maildir : Folder → Bool
is_maildir folder = is_there folder.cur && (is_there folder.new && is_there folder.tmp)

-- `Maildir::exists`.
unfoldable pub exists : Home → Bool
unfolding folder_of is_maildir
exists home = is_maildir (folder_of [] home)

-- `Maildir::delete_mailbox`.
unfoldable pub delete_mailbox : Text → Home → Home × Bool
unfolding remove_folder
delete_mailbox name home =
    if is_inbox name then (home, false) else (remove_folder (mailbox_folder name) home, true)

abbrev has_numbers : Option (ℕ × ℕ) → Bool
has_numbers none = false
has_numbers (some numbers) = true

-- Whether nothing stands in a directory, so that another may take its place.
unfoldable pub is_bare : Folder → Bool
is_bare folder = not (
    is_there folder.cur
    || (is_there folder.new || (is_there folder.tmp || has_numbers folder.uidvalidity)))

-- `std::filesystem::rename` of a directory that is there.
unfoldable pub rename_folder : Text → Text → Folder → Home → Home × Bool
unfolding find_folder put_folder remove_folder is_bare
rename_folder old new folder home =
    if text_eq old new then (home, true) else elim (find_folder new home) [
      | none ↦ (put_folder new folder (remove_folder old home), true)
      | some other ↦
          if is_bare other
          then (put_folder new folder (remove_folder old home), true)
          else (home, false)
    ]

-- `Maildir::rename_mailbox`; nothing takes the place of the mail directory itself.
unfoldable pub rename_mailbox : Text → Text → Home → Home × Bool
unfolding rename_folder
rename_mailbox old_name new_name home =
    if is_inbox old_name || is_inbox new_name
    then (home, false)
    else elim (find_folder (mailbox_folder old_name) home) [
      | none ↦ (home, false)
      | some folder ↦ rename_folder (mailbox_folder old_name) (mailbox_folder new_name) folder home
    ]

-- The pattern up to the first star.
unfoldable pub pattern_prefix : Text → Text
unfolding find_if
pattern_prefix pattern = elim (find_char b'*' pattern) [
  | none ↦ pattern
  | some star ↦ take star pattern
]

unfoldable pub fits : Text → Text → Bool
unfolding pattern_prefix
fits pattern name =
    text_eq pattern (codes "*")
    || (text_eq pattern (codes "%") || starts_with (pattern_prefix pattern) name)

-- The mailbox of a directory, if it is a whole one and fits the pattern.
unfoldable pub listed : Text → Text → Folder → List Text
unfolding fits is_maildir
listed pattern [] folder = []
listed pattern (c ∷ s) folder =
    let name = replace b'.' b'/' s in
    if (c == b'.') && (is_maildir folder && fits pattern name) then name ∷ [] else []

unfoldable pub list_folders : Text → Home → List Text
unfolding listed
list_folders pattern [] = []
list_folders pattern ((key, folder) ∷ rest) = listed pattern key folder ++ list_folders pattern rest

-- `std::sort` of texts; equal ones stay.
unfoldable pub insert_text : Text → List Text → List Text
insert_text s [] = s ∷ []
insert_text s (t ∷ rest) =
    let later = insert_text s rest in if text_less t s then t ∷ later else s ∷ t ∷ rest

unfoldable pub sort_texts : List Text → List Text
unfolding insert_text
sort_texts [] = []
sort_texts (s ∷ rest) = insert_text s (sort_texts rest)

-- `Maildir::list_mailboxes`.
unfoldable pub list_mailboxes : Text → Home → List Text
unfolding list_folders sort_texts
list_mailboxes pattern home = sort_texts (codes "INBOX" ∷ list_folders pattern home)

-- `Maildir::get_uid_validity` at a time, over the file `.uidvalidity`.
unfoldable pub get_uid_validity : ℕ → Option (ℕ × ℕ) → Option (ℕ × ℕ) × ℕ
get_uid_validity now (some (validity, next_uid)) = (some (validity, next_uid), validity)
get_uid_validity now none = (some (now % 2 ^ 32, 1), now % 2 ^ 32)

-- `Maildir::allocate_uid`.
unfoldable pub allocate_uid : Option (ℕ × ℕ) → Option (ℕ × ℕ) × ℕ
allocate_uid none = (some (0, 2), 1)
allocate_uid (some (validity, next_uid)) = (some (validity, (next_uid + 1) % 2 ^ 32), next_uid)

-- `Maildir::get_mailbox_info` of a directory that has `cur`.
unfoldable pub mailbox_info : Text → ℕ → Folder → Folder × MailboxInfo
unfolding get_uid_validity allocate_uid count_if sum_sizes list_messages
mailbox_info name now folder =
    let (written, validity) = get_uid_validity now folder.uidvalidity in
    let (counted, uid_next) = allocate_uid written in
    let messages = list_messages folder in
    (
      record folder { uidvalidity = counted },
      record {
        name = if is_empty name then codes "INBOX" else name;
        total_messages = length messages;
        recent_messages = count_if (λ msg. msg.is_new) messages;
        unseen_messages = count_if (λ msg. not (is_seen msg)) messages;
        total_size = sum_sizes messages;
        uid_validity = validity;
        uid_next = uid_next;
      },
    )

-- `Maildir::get_mailbox_info`.
unfoldable pub get_mailbox_info : Text → ℕ → Home → Home × Option MailboxInfo
unfolding folder_of mailbox_info put_folder
get_mailbox_info name now home =
    let folder = folder_of (mailbox_folder name) home in
    let (counted, info) = mailbox_info name now folder in
    if is_there folder.cur
    then (put_folder (mailbox_folder name) counted home, some info)
    else (home, none)

-- The message is written to `tmp` and moved to `new`, where that is there.
unfoldable pub deliver_into : File → Text → Home → Home × Text
unfolding put_folder folder_of
deliver_into file key home =
    let folder = folder_of key home in
    elim folder.new [
      | none ↦ (home, [])
      | some files ↦
          (put_folder key (record folder { new = some (put_file file files) }) home, file.name)
    ]

-- `Maildir::deliver`; an empty text says that nothing was delivered.
unfoldable pub deliver : File → Text → Home → Home × Text
unfolding ensure_mailbox_dirs deliver_into
deliver file mailbox home =
    let key = mailbox_folder mailbox in
    if is_there ((folder_of key home).tmp)
    then deliver_into file key home
    else deliver_into file key (ensure_mailbox_dirs key home)

-- `Maildir::copy_message`, with the name and the time of the copy.
unfoldable pub copy_message : Text → Text → Text → Text → ℕ → Home → Option (Home × Bool)
unfolding deliver get_message_content
copy_message unique_id from to name time home =
    elim (get_message_content unique_id (folder_of (mailbox_folder from) home)) [
      | none ↦ none
      | some found ↦ elim found [
        | none ↦ some (home, false)
        | some content ↦
            let file : File = record { name = name; content = content; time = time } in
            let (home', delivered) = deliver file to home in some (home', not (is_empty delivered))
      ]
    ]

-- `Maildir::move_message`: the file goes to `cur` of the other mailbox under its name.
unfoldable pub place : File → Text → Home → Home
unfolding folder_of put_folder
place file key home =
    let folder = folder_of key home in
    elim folder.cur [
      | none ↦ home
      | some files ↦ put_folder key (record folder { cur = some (put_file file files) }) home
    ]

unfoldable pub move_message : Text → Text → Text → Home → Option (Home × Bool)
unfolding place locate change ensure_mailbox_dirs
move_message unique_id from to home =
    let source = mailbox_folder from in
    let target = mailbox_folder to in
    elim (locate unique_id (folder_of source home)) [
      | none ↦ none
      | some found ↦ elim found [
        | none ↦ some (home, false)
        | some (is_new, file) ↦
            let ready =
              if is_there ((folder_of target home).cur)
              then home
              else ensure_mailbox_dirs target home in
            let left = change is_new (remove_file file.name) (folder_of source ready) in
            some (place file target (put_folder source left ready), true)
      ]
    ]
