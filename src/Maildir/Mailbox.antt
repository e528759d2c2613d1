-- ===== src/Maildir/Mailbox.antt =====
-- The operations of common/src/storage/maildir.cpp on the messages of one mailbox, over its directory.
-- `none` around a result is an exception of `std::filesystem` that the operation does not catch.
-- `std::sort` leaves the order of messages of the same time open: here they keep theirs.
use email_server.Base.{
  ℕ, ◌+◌, Bool, true, false, List, [], ◌∷◌, ◌++◌, Option, none, some, ltb, if◌then◌else◌, length,
  take,
}
use email_server.Maildir.Disk.{File, Directory, Folder, remove_file, put_file, rename_file}
use email_server.Maildir.Names.{flags_to_info, parse_flags, unique_id_of}
use email_server.Maildir.{Message, is_deleted}
use email_server.Text.Sets.{insert_all, erase_all}
use email_server.Text.{Text, codes, starts_with, find_text}

-- `Maildir::parse_message_file` of a file in `new` or in `cur`.
unfoldable pub parse_message_file : Bool → File → Message
unfolding unique_id_of parse_flags
parse_message_file is_new file = record {
  unique_id = unique_id_of file.name;
  filename = file.name;
  size = length file.content;
  timestamp = file.time;
  flags = parse_flags file.name;
  is_new = is_new;
}

-- `filename.find(unique_id) == 0` over the entries: the first file that it holds of.
unfoldable pub find_file : Text → List File → Option File
unfolding starts_with
find_file unique_id [] = none
find_file unique_id (file ∷ rest) =
    let later = find_file unique_id rest in
    if starts_with unique_id file.name then some file else later

-- Where the file lies that the search of `get_message` finds: in `cur`, or else in `new`.
unfoldable pub locate_new : Text → Directory → Option (Option (Bool × File))
unfolding find_file
locate_new unique_id none = none
locate_new unique_id (some files) = elim (find_file unique_id files) [
  | none ↦ some none
  | some file ↦ some (some (true, file))
]

unfoldable pub locate : Text → Folder → Option (Option (Bool × File))
unfolding locate_new
locate unique_id folder = elim folder.cur [
  | none ↦ none
  | some files ↦ elim (find_file unique_id files) [
    | none ↦ locate_new unique_id folder.new
    | some file ↦ some (some (false, file))
  ]
]

-- `Maildir::get_message`.
unfoldable pub get_message : Text → Folder → Option (Option Message)
unfolding locate parse_message_file
get_message unique_id folder = elim (locate unique_id folder) [
  | none ↦ none
  | some found ↦ elim found [
    | none ↦ some none
    | some (is_new, file) ↦ some (some (parse_message_file is_new file))
  ]
]

-- `Maildir::get_message_content`: the file at the path that was found.
unfoldable pub get_message_content : Text → Folder → Option (Option Text)
unfolding locate
get_message_content unique_id folder = elim (locate unique_id folder) [
  | none ↦ none
  | some found ↦ elim found [ none ↦ some none | some (is_new, file) ↦ some (some file.content) ]
]

-- The headers end at the first empty line.
unfoldable pub headers_of : Text → Text
unfolding find_text
headers_of content = elim (find_text (codes "\r\n\r\n") content) [
  | some pos ↦ take pos content
  | none ↦ elim (find_text (codes "\n\n") content) [ some pos ↦ take pos content | none ↦ content ]
]

-- `Maildir::get_message_headers`.
unfoldable pub get_message_headers : Text → Folder → Option (Option Text)
unfolding get_message_content headers_of
get_message_headers unique_id folder = elim (get_message_content unique_id folder) [
  | none ↦ none
  | some found ↦ elim found [ none ↦ some none | some content ↦ some (some (headers_of content)) ]
]

-- The messages of a directory that may not be there.
unfoldable pub messages_in : Bool → Directory → List Message
unfolding parse_message_file
messages_in is_new none = []
messages_in is_new (some []) = []
messages_in is_new (some (file ∷ rest)) =
    parse_message_file is_new file ∷ messages_in is_new (some rest)

-- `std::sort` by the time.
unfoldable pub insert_by_time : Message → List Message → List Message
insert_by_time msg [] = msg ∷ []
insert_by_time msg (other ∷ rest) =
    let later = insert_by_time msg rest in
    if ltb other.timestamp msg.timestamp then other ∷ later else msg ∷ other ∷ rest

unfoldable pub sort_by_time : List Message → List Message
unfolding insert_by_time
sort_by_time [] = []
sort_by_time (msg ∷ rest) = insert_by_time msg (sort_by_time rest)

-- `Maildir::list_messages`.
unfoldable pub list_messages : Folder → List Message
unfolding messages_in sort_by_time
list_messages folder = sort_by_time (messages_in false folder.cur ++ messages_in true folder.new)

-- `Maildir::list_new_messages`.
unfoldable pub list_new_messages : Folder → List Message
unfolding messages_in
list_new_messages folder = messages_in true folder.new

-- `Maildir::get_message_count`.
abbrev files_in : Directory → ℕ
files_in none = 0
files_in (some files) = length files

unfoldable pub get_message_count : Folder → ℕ
get_message_count folder = files_in folder.cur + files_in folder.new

-- The two loops of `get_mailbox_info` over the messages.
unfoldable pub count_if : (Message → Bool) → List Message → ℕ
count_if p [] = 0
count_if p (msg ∷ rest) = (if p msg then 1 else 0) + count_if p rest

unfoldable pub sum_sizes : List Message → ℕ
sum_sizes [] = 0
sum_sizes (msg ∷ rest) = msg.size + sum_sizes rest

-- `new_filename` of `move_to_cur`.
unfoldable pub marked : Text → Text
unfolding find_text
marked filename = elim (find_text (codes ":2,") filename) [
  | none ↦ filename ++ codes ":2,"
  | some pos ↦ filename
]

-- The file leaves `new` for `cur`, which has to be there.
unfoldable pub carry : File → List File → Folder → Option (Folder × Bool)
unfolding marked
carry file files folder = elim folder.cur [
  | none ↦ none
  | some others ↦ some (
    record folder {
      new = some (remove_file file.name files);
      cur = some (put_file (record file { name = marked file.name }) others);
    },
    true,
  )
]

-- `Maildir::move_to_cur`.
unfoldable pub move_to_cur : Text → Folder → Option (Folder × Bool)
unfolding find_file carry
move_to_cur unique_id folder = elim folder.new [
  | none ↦ none
  | some files ↦ elim (find_file unique_id files) [
    | none ↦ some (folder, false)
    | some file ↦ carry file files folder
  ]
]

-- The directory that a message lies in, changed.
unfoldable pub change : Bool → (List File → List File) → Folder → Folder
change true f folder = elim folder.new [
  | none ↦ folder
  | some files ↦ record folder { new = some (f files) }
]
change false f folder = elim folder.cur [
  | none ↦ folder
  | some files ↦ record folder { cur = some (f files) }
]

-- `Maildir::delete_message`.
unfoldable pub delete_message : Text → Folder → Option (Folder × Bool)
unfolding locate change
delete_message unique_id folder = elim (locate unique_id folder) [
  | none ↦ none
  | some found ↦ elim found [
    | none ↦ some (folder, false)
    | some (is_new, file) ↦ some (change is_new (remove_file file.name) folder, true)
  ]
]

-- The end of `set_flags`: the message that was found gets the name of its flags.
unfoldable pub rename_found :
    List ℕ → Option (Option (Bool × File)) → Folder → Option (Folder × Bool)
unfolding change
rename_found flags none folder = none
rename_found flags (some none) folder = some (folder, false)
rename_found flags (some (some (is_new, file))) folder = some (
  change is_new (rename_file file.name (unique_id_of file.name ++ flags_to_info flags)) folder,
  true,
)

-- `set_flags` of a message that is not new, or that `move_to_cur` has moved.
unfoldable pub set_flags_of :
    Text → List ℕ → Option (Option (Bool × File)) → Folder → Option (Folder × Bool)
unfolding rename_found move_to_cur locate
set_flags_of unique_id flags none folder = none
set_flags_of unique_id flags (some none) folder = some (folder, false)
set_flags_of unique_id flags (some (some (false, file))) folder =
    rename_found flags (some (some (false, file))) folder
set_flags_of unique_id flags (some (some (true, file))) folder =
    elim (move_to_cur unique_id folder) [
      | none ↦ none
      | some (moved, done) ↦ rename_found flags (locate unique_id moved) moved
    ]

-- `Maildir::set_flags`.
unfoldable pub set_flags : Text → List ℕ → Folder → Option (Folder × Bool)
unfolding set_flags_of
set_flags unique_id flags folder = set_flags_of unique_id flags (locate unique_id folder) folder

-- `Maildir::add_flags`, `Maildir::remove_flags` and `Maildir::mark_as_seen`.
unfoldable pub add_flags : Text → List ℕ → Folder → Option (Folder × Bool)
unfolding get_message set_flags
add_flags unique_id flags folder = elim (get_message unique_id folder) [
  | none ↦ none
  | some found ↦ elim found [
    | none ↦ some (folder, false)
    | some msg ↦ set_flags unique_id (insert_all ltb flags msg.flags) folder
  ]
]

unfoldable pub remove_flags : Text → List ℕ → Folder → Option (Folder × Bool)
unfolding get_message set_flags
remove_flags unique_id flags folder = elim (get_message unique_id folder) [
  | none ↦ none
  | some found ↦ elim found [
    | none ↦ some (folder, false)
    | some msg ↦ set_flags unique_id (erase_all ltb flags msg.flags) folder
  ]
]

abbrev pub mark_as_seen : Text → Folder → Option (Folder × Bool)
mark_as_seen unique_id = add_flags unique_id (b'S' ∷ [])

-- The loop of `expunge`, with the number of messages deleted so far.
unfoldable pub expunge_messages : List Message → ℕ → Folder → Option (Folder × ℕ)
unfolding delete_message
expunge_messages [] count folder = some (folder, count)
expunge_messages (msg ∷ rest) count folder = elim (is_deleted msg) [
  | false ↦ expunge_messages rest count folder
  | true ↦ elim (delete_message msg.unique_id folder) [
    | none ↦ none
    | some (left, done) ↦ expunge_messages rest (if done then count + 1 else count) left
  ]
]

-- `Maildir::expunge`.
unfoldable pub expunge : Folder → Option (Folder × ℕ)
unfolding expunge_messages
expunge folder = expunge_messages (list_messages folder) 0 folder
