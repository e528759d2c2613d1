-- ===== src/Maildir/Disk.antt =====
-- The file system under common/src/storage/maildir.cpp: what `std::filesystem` does with the
-- directories of one user. A directory is a list of files, in the order of its iterator, or `none`
-- where it is not there. The operating system refuses nothing but what the state of the directories
-- forbids: there is room for every file, and no permission is missing.
use email_server.Base.{ℕ, Bool, true, false, List, [], ◌∷◌, ◌++◌, Option, none, some, if◌then◌else◌}
use email_server.Text.{Text, text_eq}

pub record File : Type 0 where
  pub name : Text
  pub content : Text
  pub time : ℕ

abbrev pub Directory : Type 0
Directory = Option (List File)

-- A mailbox's directory. `uidvalidity` holds the two numbers of the file `.uidvalidity`.
pub record Folder : Type 0 where
  pub cur : Directory
  pub new : Directory
  pub tmp : Directory
  pub uidvalidity : Option (ℕ × ℕ)

abbrev pub empty_folder : Folder
empty_folder = record { cur = none; new = none; tmp = none; uidvalidity = none }

-- A user's mail directory: the mailboxes' directories by their names.
abbrev pub Home : Type 0
Home = List (Text × Folder)

-- `exists` of a directory.
abbrev pub is_there : Directory → Bool
is_there none = false
is_there (some files) = true

unfoldable pub find_folder : Text → Home → Option Folder
find_folder name [] = none
find_folder name ((key, folder) ∷ rest) =
    if text_eq key name then some folder else find_folder name rest

-- The directory with this name, made or replaced.
unfoldable pub put_folder : Text → Folder → Home → Home
put_folder name folder [] = (name, folder) ∷ []
put_folder name folder ((key, old) ∷ rest) =
    let later = put_folder name folder rest in
    if text_eq key name then (name, folder) ∷ rest else (key, old) ∷ later

-- `remove_all` of a directory.
unfoldable pub remove_folder : Text → Home → Home
remove_folder name [] = []
remove_folder name ((key, folder) ∷ rest) =
    let later = remove_folder name rest in if text_eq key name then later else (key, folder) ∷ later

-- `remove` of a file.
unfoldable pub remove_file : Text → List File → List File
remove_file name [] = []
remove_file name (file ∷ rest) =
    let later = remove_file name rest in if text_eq file.name name then later else file ∷ later

-- A file that takes the place of one of the same name.
abbrev pub put_file : File → List File → List File
put_file file files = remove_file file.name files ++ file ∷ []

-- The file has a new name, and one that had it is gone.
unfoldable pub renamed : Text → Text → List File → List File
renamed old new [] = []
renamed old new (file ∷ rest) =
    let later = renamed old new rest in
    if text_eq file.name old
    then record file { name = new } ∷ later
    else if text_eq file.name new
    then later
    else file ∷ later

-- `rename` in one directory of a file that is there.
unfoldable pub rename_file : Text → Text → List File → List File
unfolding renamed
rename_file old new files = if text_eq old new then files else renamed old new files
